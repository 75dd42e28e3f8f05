-- ===== src/Tokens/Tests.antt =====
-- A token file with at most one entry, and the token store's theorems at it.
use gimme.Base.{
  ℕ, zero, suc, Bytes, codes, List, [], ◌∷◌, ◌++◌, Option, none, some, length, ◌≡◌, refl, true,
  false, subst,
}
use gimme.Dict.{lookup}
use gimme.Tokens.{TokenEntry}
use gimme.Tokens.Files.{
  Codec, CodecLaws, Disk, Fault, no_fault, rename_fault, split_at, split_at-append, flush,
  flush-Atomic, Atomic,
}
use gimme.Tokens.FileStore.{FileTokenStore, empty_maps, save, revoke, purge_expired}
use gimme.Tokens.Consistent.{IsFresh}
use gimme.Tokens.Reach.{Reach, Valid, saved, revoked, purged, start, next, Reach-Valid}

-- The entry as its times, the lengths of its id and name, and its texts.
abbrev pub print : List TokenEntry → Option Bytes
print [] = some []
print (e ∷ []) = some (
    e.created_at
    ∷ e.expires_at
    ∷ e.revoked_at
    ∷ length e.id
    ∷ length e.name
    ∷ (e.id ++ (e.name ++ e.token_hash)))
print (e ∷ f ∷ es) = none

abbrev pub parse : Bytes → Option (List TokenEntry)
parse [] = some []
parse (created ∷ expires ∷ revoked_time ∷ m ∷ n ∷ texts) =
    let (id, rest) = split_at m texts in
    let (name, hash) = split_at n rest in
    some (
      record {
        id = id;
        name = name;
        token_hash = hash;
        created_at = created;
        expires_at = expires;
        revoked_at = revoked_time;
      }
      ∷ [])
parse _ = none

abbrev faults : ℕ → Fault
faults zero = no_fault
faults (suc n) = rename_fault

-- The cipher text carries the length of its nonce.
abbrev pub unsealed : Bytes → Option Bytes
unsealed [] = none
unsealed (m ∷ s) = some (split_at m s).1

abbrev pub codec : Codec
codec = record {
  marshal = print;
  unmarshal = parse;
  seal = λ n s. length n ∷ (n ++ s);
  unseal = λ n s. unsealed s;
  nonce = λ n. n ∷ codes "nonce567890";
  fault = faults;
  removable = λ n. false;
}

abbrev text_of : TokenEntry → Bytes
text_of e =
    e.created_at
    ∷ e.expires_at
    ∷ e.revoked_at
    ∷ length e.id
    ∷ length e.name
    ∷ (e.id ++ (e.name ++ e.token_hash))

parse-text_of : (e : TokenEntry) → parse (text_of e) ≡ some (e ∷ [])
parse-text_of e =
    rw
      (
        split_at-append (length e.id) e.id (e.name ++ e.token_hash) refl,
        split_at-append (length e.name) e.name e.token_hash refl,
      )
      refl

pub parse-print : (es : List TokenEntry) (s : Bytes) → print es ≡ some s → parse s ≡ some es
parse-print [] s h = let same : [] ≡ s = cc in subst (λ (t : Bytes). parse t ≡ some []) same refl
parse-print (e ∷ []) s h =
    let same : text_of e ≡ s = cc in
    subst (λ (t : Bytes). parse t ≡ some (e ∷ [])) same (parse-text_of e)
parse-print (e ∷ f ∷ es) s h = absurd (cc)

pub codec-CodecLaws : CodecLaws codec
codec-CodecLaws = record {
  unseal-seal = λ n s. rw (split_at-append (length n) n s refl) refl;
  unmarshal-marshal = parse-print;
  nonce_length = λ n. refl;
}

abbrev pub first_entry : TokenEntry
first_entry = record {
  id = codes "1";
  name = codes "ci";
  token_hash = codes "h1";
  created_at = 10;
  expires_at = 50;
  revoked_at = 0;
}

abbrev pub empty_disk : Disk
empty_disk = record { file = none; temps = 0; flushes = 0 }

run_flush : (flush codec (first_entry ∷ []) empty_disk).0 ≡ true
unfolding flush
run_flush = refl

flush-Atomic_example :
    Atomic codec (first_entry ∷ []) empty_disk (flush codec (first_entry ∷ []) empty_disk)
flush-Atomic_example = flush-Atomic codec codec-CodecLaws (first_entry ∷ []) empty_disk

abbrev pub one_saved : FileTokenStore
one_saved = (save codec first_entry (record { maps = empty_maps; disk = empty_disk })).1

pub first_entry-IsFresh : IsFresh first_entry empty_maps
unfolding lookup
first_entry-IsFresh = record { id = refl; hash = refl }

abbrev pub saved_once : Reach codec empty_disk one_saved
saved_once = next start (saved first_entry first_entry-IsFresh)

Reach-Valid_example : Valid (purge_expired codec 60 (revoke codec 20 (codes "1") one_saved).1)
Reach-Valid_example =
    Reach-Valid codec empty_disk (next (next saved_once (revoked 20 (codes "1"))) (purged 60))
