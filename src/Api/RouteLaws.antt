-- ===== src/Api/RouteLaws.antt =====
-- Proofs about the two routes to a listing.
use gimme.Base.{ℕ, Bytes, text_eq, [], ◌∷◌, Option, ◌≡◌, refl, Bool-cases, inl, inr}
use gimme.Strings.{slash}
use gimme.Errors.{Result-cases}
use gimme.Content.Upload.{Service}
use gimme.Content.Serve.{CacheManager}
use gimme.Api.Negotiate.{Quality}
use gimme.Api.Packages.{get_slice}
use gimme.Api.Files.{FileRequest, Stat, Times}
use gimme.Api.Routes.{Web, ListingRequest, get_package, get_package_folder, kept, has_version}

module _ {W Object C : Type 0} (svc : Service W Object) (web : Web) (times : Times)
    (quality : Quality) (stat : Object → W → Option Stat) (cache : Option (CacheManager C)) where
  -- A request for the path `/` of a package gets from `getPackage` what `getPackageFolder` answers for
  -- the package, and leaves the cache as it was.
  pub get_package-get_package_folder :
      (fuel : ℕ) (r : ListingRequest) (fr : FileRequest) (param : Bytes) (w : W) (c : C)
      → get_package svc web times quality stat cache fuel r fr param (slash ∷ []) w c
        ≡ kept svc web times quality stat cache c (get_package_folder svc web fuel r param w)
  unfolding get_package get_package_folder text_eq
  get_package-get_package_folder fuel r fr param w c =
      elim (Bool-cases (has_version svc web param)) [
        | inr q ↦ rw (q, get_package, get_package_folder) refl
        | inl q ↦ elim (Result-cases (get_slice param)) [
          | inl (s, e) ↦ rw (q, e, get_package, get_package_folder) refl
          | inr (f, e) ↦ rw (q, e, get_package, get_package_folder) refl
        ]
      ]
