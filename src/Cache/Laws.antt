-- ===== src/Cache/Laws.antt =====
-- What is relied on of SCAN and DEL, and proofs about the deletion of a prefix.
use gimme.Base.{
  ℕ, zero, suc, ◌<◌, ◌≤◌, Bytes, codes, text_eq, ◌==◌, ==_iff, if◌then◌else◌, Bool, true, false,
  ◌||◌, any, List, [], ◌∷◌, ◌++◌, Option, none, some, ◌≡◌, ◌≢◌, ◌⊎◌, inl, inr, refl, sym, ◌∙◌,
  subst, arith, Bool-cases, Option-cases,
}
use gimme.Strings.{has_prefix}
use gimme.Cache.{
  CacheClient, EntryJson, del_done, del_scanned, next_round, scanned_round, scan_rounds,
  delete_by_prefix,
}

-- The characters that have a meaning in a pattern.
abbrev pub is_wild : ℕ → Bool
is_wild c = c == b'*' || (c == b'?' || (c == b'[' || (c == b']' || (c == b'^' || c == 92))))

-- A scan is going to answer with every key of the prefix that is there from its start to its end
-- (`Pending`), in finitely many rounds, which deletions do not make more.
pub record ScanLaws {R : Type 0} (client : CacheClient R) : Type 1 where
  pub Pending : Bytes → ℕ → Bytes → R → Type 0
  pub rounds : ℕ → R → ℕ
  pub started :
      (prefix key : Bytes) (s : R)
      → any is_wild prefix ≡ false
      → has_prefix key prefix ≡ true
      → client.get key s ≢ none
      → Pending prefix 0 key s
  pub scanned :
      (prefix key : Bytes) (cursor next : ℕ) (keys : List Bytes) (s : R)
      → Pending prefix cursor key s
      → client.scan cursor (prefix ++ codes "*") s ≡ some (keys, next)
      → (any (text_eq key) keys ≡ true) ⊎ (next ≢ 0) × Pending prefix next key s
  pub fewer :
      (pattern : Bytes) (cursor next : ℕ) (keys : List Bytes) (s : R)
      → client.scan cursor pattern s ≡ some (keys, next)
      → next ≢ 0
      → rounds next s < rounds cursor s
  pub get-del :
      (keys : List Bytes) (key : Bytes) (s : R) (n : ℕ)
      → (client.del keys s).0 ≡ some n
      → client.get key (client.del keys s).1
        ≡ (if any (text_eq key) keys then none else client.get key s)
  pub lost :
      (keys : List Bytes) (key : Bytes) (s : R)
      → (client.get key (client.del keys s).1 ≡ none)
        ⊎ (client.get key (client.del keys s).1 ≡ client.get key s)
  pub still :
      (prefix key : Bytes) (cursor : ℕ) (keys : List Bytes) (s : R)
      → Pending prefix cursor key s
      → any (text_eq key) keys ≡ false
      → Pending prefix cursor key (client.del keys s).1
  pub no_more :
      (cursor : ℕ) (keys : List Bytes) (s : R)
      → rounds cursor (client.del keys s).1 ≤ rounds cursor s

module _ {R : Type 0} (client : CacheClient R) (json : EntryJson) (laws : ScanLaws client)
    (prefix : Bytes) where
  -- What a deletion of scanned keys leaves.
  record Removed (keys : List Bytes) (s t : R) : Type 0 where
    gets :
        (key : Bytes)
        → client.get key t ≡ (if any (text_eq key) keys then none else client.get key s)
    still :
        (key : Bytes) (cursor : ℕ)
        → laws.Pending prefix cursor key s
        → any (text_eq key) keys ≡ false
        → laws.Pending prefix cursor key t
    rounds : (cursor : ℕ) → laws.rounds cursor t ≤ laws.rounds cursor s

  del_done_inv :
      (o : Option ℕ × R)
      → (del_done client json o).0 ≡ true
      → ((n : ℕ) × (o.0 ≡ some n)) × ((del_done client json o).1 ≡ o.1)
  del_done_inv (none, s) h = cc
  del_done_inv (some n, s) h = ((n, refl), refl)

  del_scanned-Removed :
      (keys : List Bytes) (s : R)
      → (del_scanned client json keys s).0 ≡ true
      → Removed keys s (del_scanned client json keys s).1
  del_scanned-Removed [] s h = record {
    gets = λ key. refl;
    still = λ key cursor p a. p;
    rounds = λ cursor. omega arith;
  }
  del_scanned-Removed (k ∷ ks) s h =
      let ((n, done), state) = del_done_inv (client.del (k ∷ ks) s) h in
      subst (Removed (k ∷ ks) s) (sym state) (record {
        gets = λ key. laws.get-del (k ∷ ks) key s n done;
        still = λ key cursor p a. laws.still prefix key cursor (k ∷ ks) s p a;
        rounds = λ cursor. laws.no_more cursor (k ∷ ks) s;
      })

  -- A key is gone, or as it was.
  abbrev GoneOrKept : Bytes → R → R → Type 0
  GoneOrKept key s t = (client.get key t ≡ none) ⊎ (client.get key t ≡ client.get key s)

  lost_later :
      (key : Bytes) (s t u : R) → GoneOrKept key s t → GoneOrKept key t u → GoneOrKept key s u
  lost_later key s t u h (inl gone) = inl gone
  lost_later key s t u (inl gone) (inr same) = inl (same ∙ gone)
  lost_later key s t u (inr kept) (inr same) = inr (same ∙ kept)

  del_done_lost :
      (o : Option ℕ × R) (key : Bytes) (s : R)
      → GoneOrKept key s o.1
      → GoneOrKept key s (del_done client json o).1
  del_done_lost (none, t) key s h = h
  del_done_lost (some n, t) key s h = h

  -- A deletion, also one that fails, changes no value.
  del_scanned_lost :
      (keys : List Bytes) (key : Bytes) (s : R)
      → GoneOrKept key s (del_scanned client json keys s).1
  del_scanned_lost [] key s = inr refl
  del_scanned_lost (k ∷ ks) key s =
      del_done_lost (client.del (k ∷ ks) s) key s (laws.lost (k ∷ ks) key s)

  -- The answer of the loop: after a success the prefix has no key left, and every key is gone or
  -- as it was.
  abbrev pub Cleared : R → Option (Bool × R) → Type 0
  Cleared s o =
      (answer : Bool × R) × (o ≡ some answer)
      × (answer.0 ≡ true
          → (key : Bytes) → has_prefix key prefix ≡ true
          → client.get key answer.1 ≡ none)
      × ((key : Bytes)
          → (client.get key answer.1 ≡ none) ⊎ (client.get key answer.1 ≡ client.get key s))

  abbrev Waiting : ℕ → R → Type 0
  Waiting cursor s =
      (key : Bytes)
      → has_prefix key prefix ≡ true
      → client.get key s ≢ none
      → laws.Pending prefix cursor key s

  -- A key of the prefix that is left after a round is still to be scanned.
  scanned_later :
      (keys : List Bytes) (cursor next : ℕ) (s t : R) (key : Bytes)
      → client.scan cursor (prefix ++ codes "*") s ≡ some (keys, next)
      → Waiting cursor s
      → Removed keys s t
      → has_prefix key prefix ≡ true
      → client.get key t ≢ none
      → (next ≢ 0) × laws.Pending prefix next key t
  scanned_later keys cursor next s t key shape waiting r inside there =
      elim (Bool-cases (any (text_eq key) keys)) [
        | inl q ↦ absurd (there (r.gets key ∙ rw (q) refl))
        | inr q ↦
            let same : client.get key t ≡ client.get key s = r.gets key ∙ rw (q) refl in
            let pending = waiting key inside (λ e. there (same ∙ e)) in
            elim (laws.scanned prefix key cursor next keys s pending shape) [
              | inl found ↦ absurd (cc (found, q))
              | inr (more, later) ↦ (more, r.still key next later q)
            ]
      ]

  -- One round, when the rounds behind it are as they should be.
  next_round-Cleared :
      (fuel cursor next : ℕ) (keys : List Bytes) (s : R) (loop : R → Option (Bool × R))
      (d : Bool × R)
      → laws.rounds cursor s < suc fuel
      → Waiting cursor s
      → client.scan cursor (prefix ++ codes "*") s ≡ some (keys, next)
      → (d.0 ≡ true → Removed keys s d.1)
      → ((key : Bytes) → GoneOrKept key s d.1)
      → ((t : R) → laws.rounds next t < fuel → Waiting next t → Cleared t (loop t))
      → Cleared s (next_round client json loop next d)
  next_round-Cleared fuel cursor next keys s loop (false, t) less waiting shape removed gone ih =
      ((false, t), refl, (λ e. cc), gone)
  next_round-Cleared fuel cursor next keys s loop (true, t) less waiting shape removed gone ih =
      let r = removed refl in
      let left : (key : Bytes)
          → has_prefix key prefix ≡ true
          → client.get key t ≢ none
          → (next ≢ 0) × laws.Pending prefix next key t =
        λ key inside there. scanned_later keys cursor next s t key shape waiting r inside there in
      elim (Bool-cases (next == 0)) [
        | inl q ↦ (
          (true, t),
          rw (q) refl,
          (λ _ key inside. elim (Option-cases (client.get key t)) [
            | inl none_left ↦ none_left
            | inr (v, there) ↦
                absurd ((left key inside (λ e. cc (there, e))).0 ((==_iff next 0).0 q))
          ]),
          gone,
        )
        | inr q ↦
            let more : next ≢ 0 = λ e. cc (q, (==_iff next 0).1 e) in
            let fewer = laws.fewer (prefix ++ codes "*") cursor next keys s shape more in
            let bound = r.rounds next in
            let (answer, same, cleared, stays) =
              ih t (omega (arith, less, fewer, bound))
                (λ key inside there. (left key inside there).1) in
            (
              answer,
              rw (q) same,
              cleared,
              λ key. lost_later key s t answer.1 (gone key) (stays key),
            )
      ]

  scanned_round-Cleared :
      (fuel cursor : ℕ) (s : R) (loop : ℕ → R → Option (Bool × R)) (o : Option (List Bytes × ℕ))
      → laws.rounds cursor s < suc fuel
      → Waiting cursor s
      → client.scan cursor (prefix ++ codes "*") s ≡ o
      → ((next : ℕ) (t : R) → laws.rounds next t < fuel → Waiting next t → Cleared t (loop next t))
      → Cleared s (scanned_round client json loop s o)
  scanned_round-Cleared fuel cursor s loop none less waiting shape ih =
      ((false, s), refl, (λ e. cc), λ key. inr refl)
  scanned_round-Cleared fuel cursor s loop (some (keys, next)) less waiting shape ih =
      next_round-Cleared fuel cursor next keys s (loop next) (del_scanned client json keys s) less
        waiting shape (del_scanned-Removed keys s) (λ key. del_scanned_lost keys key s) (ih next)

  scan_rounds-Cleared :
      (fuel cursor : ℕ) (s : R)
      → laws.rounds cursor s < fuel
      → Waiting cursor s
      → Cleared s (scan_rounds client json fuel (prefix ++ codes "*") cursor s)
  unfolding scan_rounds
  scan_rounds-Cleared zero cursor s less waiting = absurd (omega (arith, less))
  scan_rounds-Cleared (suc fuel) cursor s less waiting =
      scanned_round-Cleared fuel cursor s _ (client.scan cursor (prefix ++ codes "*") s) less
        waiting refl (λ next t l w. scan_rounds-Cleared fuel next t l w)

  -- With the laws of SCAN and DEL, for a prefix without a character that has a meaning in patterns:
  -- DeleteByPrefix ends, on more fuel than a scan of the server takes rounds; when it reports no error,
  -- no key of the prefix is left; and whatever it reports, every key is gone or as it was.
  pub delete_by_prefix-Cleared :
      (fuel : ℕ) (s : R)
      → any is_wild prefix ≡ false
      → laws.rounds 0 s < fuel
      → Cleared s (delete_by_prefix client json fuel prefix s)
  unfolding delete_by_prefix
  delete_by_prefix-Cleared fuel s plain less =
      scan_rounds-Cleared fuel 0 s less
        (λ key inside there. laws.started prefix key s plain inside there)
