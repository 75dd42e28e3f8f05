-- ===== src/Cache/Tests.antt =====
-- A server that keeps its keys in a list and answers a scan in one round.
use gimme.Base.{
  ℕ, ◌<◌, leb, Bool, not, Bytes, codes, text_eq, text_eq_iff, text_eq_refl, if◌then◌else◌, true,
  false, any, List, [], ◌∷◌, Option, none, some, ◌≡◌, ◌≢◌, ◌⊎◌, inl, inr, refl, sym, ap, ◌∙◌, subst,
  arith, Bool-cases,
}
use gimme.Strings.{has_prefix, trim_suffix, trim_suffix-append}
use gimme.Cache.{CacheClient, EntryJson, delete_by_prefix}
use gimme.Cache.Manager.{EntryLaws, redis_cache, redis_cache-CacheLaws}
use gimme.Content.Serve.{CacheManager}
use gimme.Content.Cached.{CacheLaws}
use gimme.Cache.Laws.{ScanLaws, Cleared, delete_by_prefix-Cleared}

abbrev pub Server : Type 0
Server = List (Bytes × Bytes)

abbrev pub text_at : Bytes → Server → Option Bytes
text_at key [] = none
text_at key ((k, v) ∷ m) = let rest = text_at key m in if text_eq key k then some v else rest

abbrev pub without : List Bytes → Server → Server
without ks [] = []
without ks ((k, v) ∷ m) =
    let rest = without ks m in if any (text_eq k) ks then rest else (k, v) ∷ rest

abbrev pub matching : Bytes → Server → List Bytes
matching p [] = []
matching p ((k, v) ∷ m) = let rest = matching p m in if has_prefix k p then k ∷ rest else rest

abbrev pub server : CacheClient Server
server = record {
  get = text_at;
  set = λ key text m. (true, (key, text) ∷ m);
  del = λ ks m. (some 1, without ks m);
  scan = λ cursor pattern m. some (matching (trim_suffix pattern (codes "*")) m, 0);
}

text_at-without :
    (ks : List Bytes) (key : Bytes) (m : Server)
    → text_at key (without ks m) ≡ (if any (text_eq key) ks then none else text_at key m)
text_at-without ks key [] = ground arith
text_at-without ks key ((k, v) ∷ m) =
    let rest = text_at-without ks key m in
    elim (Bool-cases (text_eq key k)) [
      | inl q ↦
          let same : any (text_eq key) ks ≡ any (text_eq k) ks =
            ap (λ x. any (text_eq x) ks) ((text_eq_iff key k).0 q) in
          ground (arith, rest, same, q)
      | inr q ↦ ground (arith, rest, q)
    ]

without_lost :
    (ks : List Bytes) (key : Bytes) (m : Server)
    → (text_at key (without ks m) ≡ none) ⊎ (text_at key (without ks m) ≡ text_at key m)
without_lost ks key m = elim (Bool-cases (any (text_eq key) ks)) [
  | inl q ↦ inl (text_at-without ks key m ∙ rw (q) refl)
  | inr q ↦ inr (text_at-without ks key m ∙ rw (q) refl)
]

any-matching :
    (p key : Bytes) (m : Server)
    → has_prefix key p ≡ true
    → text_at key m ≢ none
    → any (text_eq key) (matching p m) ≡ true
any-matching p key [] inside there = absurd (there refl)
any-matching p key ((k, v) ∷ m) inside there = elim (Bool-cases (text_eq key k)) [
  | inl q ↦
      let same : has_prefix k p ≡ true =
        subst (λ x. has_prefix x p ≡ true) ((text_eq_iff key k).0 q) inside in
      rw (same, q) refl
  | inr q ↦ let rest = any-matching p key m inside (λ e. there (rw (q) e)) in ground (arith, rest)
]

any-matching-without :
    (p key : Bytes) (ks : List Bytes) (m : Server)
    → any (text_eq key) (matching p m) ≡ true
    → any (text_eq key) ks ≡ false
    → any (text_eq key) (matching p (without ks m)) ≡ true
any-matching-without p key ks [] h n = h
any-matching-without p key ks ((k, v) ∷ m) h n = elim (Bool-cases (text_eq key k)) [
  | inl q ↦
      let kept : any (text_eq k) ks ≡ false =
        subst (λ x. any (text_eq x) ks ≡ false) ((text_eq_iff key k).0 q) n in
      elim (Bool-cases (has_prefix k p)) [
        | inl inside ↦ rw (kept, inside, q) refl
        | inr outside ↦
            rw (kept, outside) (any-matching-without p key ks m (ground (arith, h, outside)) n)
      ]
  | inr q ↦
      let later : any (text_eq key) (matching p m) ≡ true = ground (arith, h, q) in
      let rest = any-matching-without p key ks m later n in ground (arith, rest, q)
]

abbrev scan_answer : List Bytes → ℕ → Option (List Bytes × ℕ)
scan_answer keys next = some (keys, next)

same_scan : {a b : List Bytes} {m n : ℕ} → scan_answer a m ≡ scan_answer b n → (a ≡ b) × (m ≡ n)
same_scan h = (cc, cc)

unfoldable server_laws : ScanLaws server
server_laws = record {
  Pending = λ p cursor key m. any (text_eq key) (matching p m) ≡ true;
  rounds = λ cursor m. 0;
  started = λ p key m plain inside there. any-matching p key m inside there;
  scanned = λ p key cursor next keys m pending shape.
      let keys_same =
        ap (λ x. matching x m) (sym (trim_suffix-append p (codes "*"))) ∙ (same_scan shape).0 in
      inl (subst (λ ks. any (text_eq key) ks ≡ true) keys_same pending);
  fewer = λ pattern cursor next keys m shape more. absurd (more (sym (same_scan shape).1));
  get-del = λ keys key m n done. text_at-without keys key m;
  lost = without_lost;
  still = λ p key cursor keys m pending n. any-matching-without p key keys m pending n;
  no_more = λ cursor keys m. omega arith;
}

abbrev pub json : EntryJson
json = record { marshal = λ path. some path; unmarshal = λ text. some text }

abbrev two : Server
two = (codes "p@1/a", codes "x") ∷ (codes "q@1/a", codes "y") ∷ []

run_deletion :
    delete_by_prefix server json 1 (codes "p@1") two ≡ some (true, (codes "q@1/a", codes "y") ∷ [])
unfolding delete_by_prefix has_prefix trim_suffix text_eq
run_deletion = refl

delete_by_prefix-Cleared_example :
    Cleared server json server_laws
      (codes "p@1")
      two
      (delete_by_prefix server json 1 (codes "p@1") two)
unfolding server_laws
delete_by_prefix-Cleared_example =
    delete_by_prefix-Cleared server json server_laws (codes "p@1") 1 two refl (omega arith)

-- The laws with the bound of a scan, which takes one round.
pub bounded_server : (laws : ScanLaws server) × ((m : Server) → laws.rounds 0 m < 1)
unfolding server_laws
bounded_server = (server_laws, λ m. omega arith)

-- No byte is beyond ASCII.
abbrev pub is_ascii : Bytes → Bool
is_ascii s = not (any (λ c. leb 128 c) s)

pub entry_laws : EntryLaws is_ascii server json
entry_laws = record {
  get-set = λ key text m. inl (rw (text_eq_refl key) refl);
  unmarshal-marshal = λ path text clean e. sym e;
}

abbrev pub server_cache : CacheManager Server
server_cache = redis_cache server json (λ m. 1)

redis_cache-CacheLaws_example : CacheLaws is_ascii server_cache
redis_cache-CacheLaws_example =
    redis_cache-CacheLaws server json (λ m. 1) is_ascii entry_laws bounded_server.0 bounded_server.1
