-- ===== src/Strings/BaseName.antt =====
-- path.Base behind the last slash.
use gimme.Base.{Bytes, ◌==◌, List, [], ◌∷◌, ◌++◌, ◌≡◌, refl, Bool-cases, inl, inr}
use gimme.Strings.Split.{split, split-eq_Lacks, Lacks}
use gimme.Strings.Clean.{slash, last_or, base_name}

-- All parts but the first end in `t`.
record EndsIn (t : Bytes) (parts : List Bytes) : Type 0 where
  first : Bytes
  others : List Bytes
  shape : parts ≡ first ∷ others
  last : (d : Bytes) → last_or d others ≡ t

split-EndsIn : (w t : Bytes) → Lacks slash t → EndsIn t (split (w ++ (slash ∷ t)) slash)
unfolding split last_or
split-EndsIn [] t h = record {
  first = [];
  others = t ∷ [];
  shape = rw (split-eq_Lacks t slash h);
  last = λ d. refl;
}
split-EndsIn (c ∷ w) t h =
    let ih = split-EndsIn w t h in
    elim (Bool-cases (c == slash)) [
      | inl e ↦ record {
        first = [];
        others = ih.first ∷ ih.others;
        shape = rw (e, ih.shape);
        last = λ d. ih.last ih.first;
      }
      | inr e ↦ record {
        first = c ∷ ih.first;
        others = ih.others;
        shape = rw (e, ih.shape);
        last = ih.last;
      }
    ]

pub base_name-append : (w t : Bytes) → Lacks slash t → base_name (w ++ (slash ∷ t)) ≡ t
unfolding base_name
base_name-append w t h = let e = split-EndsIn w t h in rw e.shape (e.last e.first)
