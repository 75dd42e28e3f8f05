-- ===== src/Tokens/Files.antt =====
-- internal/auth/file-token-store.go: the encrypted token file. JSON, AES-GCM under the derived key,
-- the random nonces and the outcome of each file-system call are parameters.
use gimme.Base.{
  codes, ℕ, suc, zero, ◌+◌, Bytes, ltb, if◌then◌else◌, Bool, true, false, List, [], ◌∷◌, ◌++◌,
  Option, none, some, length, ◌≡◌, refl, subst, arith, length-append, Option-cases, ◌⊎◌, inl, inr,
}
use gimme.Tokens.{TokenEntry}

-- The first step of a flush that fails, if one does.
pub data Fault : Type 0 where
  no_fault nonce_fault create_fault write_fault sync_fault close_fault rename_fault : Fault

abbrev pub hkdf_info : Bytes
hkdf_info = codes "gimme-file-token-store-v1"

-- `hkdf` reads as many bytes as are asked for, of a secret under a label.
unfoldable pub derive_aes_key : (Bytes → Bytes → ℕ → Option Bytes) → Bytes → Option Bytes
derive_aes_key hkdf master_secret = hkdf master_secret hkdf_info 32

-- The libraries below the store, with the key that HKDF derives fixed.
pub record Codec : Type 0 where
  pub marshal : List TokenEntry → Option Bytes
  pub unmarshal : Bytes → Option (List TokenEntry)
  -- gcm.Seal and gcm.Open behind the nonce.
  pub seal : Bytes → Bytes → Bytes
  pub unseal : Bytes → Bytes → Option Bytes
  -- What the flush of that number draws and meets, and whether its temporary file could be removed.
  pub nonce : ℕ → Bytes
  pub fault : ℕ → Fault
  pub removable : ℕ → Bool

abbrev pub nonce_size : ℕ
nonce_size = 12

-- The token file, and the number of temporary files that are left beside it.
pub record Disk : Type 0 where
  pub file : Option Bytes
  pub temps : ℕ
  pub flushes : ℕ

unfoldable pub split_at : ℕ → Bytes → Bytes × Bytes
split_at zero s = ([], s)
split_at (suc n) [] = ([], [])
split_at (suc n) (c ∷ s) = let (head, rest) = split_at n s in (c ∷ head, rest)

module _ (codec : Codec) where
  open codec use {marshal, unmarshal, seal, unseal, nonce, fault, removable}

  unfoldable pub encrypt : ℕ → Bytes → Bytes
  encrypt n plain = nonce n ++ seal (nonce n) plain

  unfoldable pub decrypt : Bytes → Option Bytes
  unfolding split_at
  decrypt sealed =
      if ltb (length sealed) nonce_size
      then none
      else let (head, rest) = split_at nonce_size sealed in unseal head rest

  -- os.Remove of the temporary file, whose error is ignored.
  abbrev cleaned_up : Bool → Disk → Disk
  cleaned_up true d = d
  cleaned_up false d = record d { temps = d.temps + 1 }

  -- The steps behind the encryption; `true` is success. The flag is whether the removal of the temporary
  -- file succeeds, where there is one.
  unfoldable pub write_out : Fault → Bool → Bytes → Disk → Bool × Disk
  write_out no_fault removed sealed d = (true, record d { file = some sealed })
  write_out nonce_fault removed sealed d = (false, d)
  write_out create_fault removed sealed d = (false, d)
  write_out write_fault removed sealed d = (false, cleaned_up removed d)
  write_out sync_fault removed sealed d = (false, cleaned_up removed d)
  write_out close_fault removed sealed d = (false, cleaned_up removed d)
  write_out rename_fault removed sealed d = (false, cleaned_up removed d)

  -- `flush` of the entries in the order of one iteration of the map.
  unfoldable pub flush : List TokenEntry → Disk → Bool × Disk
  unfolding encrypt write_out
  flush entries d =
      let counted = record d { flushes = d.flushes + 1 } in
      elim (marshal entries) [
        | none ↦ (false, counted)
        | some plain ↦
            write_out (fault d.flushes) (removable d.flushes) (encrypt d.flushes plain) counted
      ]

  -- The entries of the token file; a missing file holds none.
  unfoldable pub read_file : Disk → Option (List TokenEntry)
  unfolding decrypt
  read_file d = elim d.file [
    | none ↦ some []
    | some sealed ↦ elim (decrypt sealed) [ none ↦ none | some plain ↦ unmarshal plain ]
  ]

-- What is relied on: a sealed text opens under its nonce, JSON gives the entries back, and the
-- nonces have the size of the cipher.
pub record CodecLaws (codec : Codec) : Type 0 where
  pub unseal-seal : (n s : Bytes) → codec.unseal n (codec.seal n s) ≡ some s
  pub unmarshal-marshal :
      (es : List TokenEntry) (s : Bytes) → codec.marshal es ≡ some s → codec.unmarshal s ≡ some es
  pub nonce_length : (n : ℕ) → length (codec.nonce n) ≡ nonce_size

pub split_at-append : (n : ℕ) (s t : Bytes) → length s ≡ n → split_at n (s ++ t) ≡ (s, t)
unfolding split_at
split_at-append zero [] t h = refl
split_at-append zero (c ∷ s) t h = absurd (omega arith)
split_at-append (suc n) [] t h = absurd (omega arith)
split_at-append (suc n) (c ∷ s) t h = rw (split_at-append n s t (omega arith))

-- The outcome of a flush from one disk to another: all or nothing, and at most one more temporary file,
-- which is left by a failure whose removal fails too.
abbrev pub Atomic : Codec → List TokenEntry → Disk → Bool × Disk → Type 0
Atomic codec entries d (done, d') =
    ((done ≡ true) × (read_file codec d' ≡ some entries) ⊎ (done ≡ false) × (d'.file ≡ d.file))
    × ((d'.temps ≡ d.temps)
        ⊎ (done ≡ false) × (codec.removable d.flushes ≡ false) × (d'.temps ≡ d.temps + 1))

module _ (codec : Codec) (laws : CodecLaws codec) where
  -- With the laws of the codec, what was encrypted under a drawn nonce decrypts to itself.
  decrypt-encrypt : (n : ℕ) (plain : Bytes) → decrypt codec (encrypt codec n plain) ≡ some plain
  unfolding decrypt encrypt
  decrypt-encrypt n plain =
      let size = laws.nonce_length n in
      let long : ltb (length (codec.nonce n ++ codec.seal (codec.nonce n) plain)) nonce_size
          ≡ false =
        ground (arith, length-append {0} (codec.nonce n) (codec.seal (codec.nonce n) plain)) in
      rw (long, split_at-append nonce_size (codec.nonce n) (codec.seal (codec.nonce n) plain) size)
        (laws.unseal-seal (codec.nonce n) plain)

  write_out-Atomic :
      (f : Fault) (b : Bool) (entries : List TokenEntry) (plain : Bytes) (d : Disk)
      → codec.marshal entries ≡ some plain
      → codec.removable d.flushes ≡ b
      → Atomic codec entries d (
          write_out codec f b
            (encrypt codec d.flushes plain)
            (record d { flushes = d.flushes + 1 }))
  unfolding write_out read_file
  write_out-Atomic no_fault b entries plain d e r = (
    inl (
      refl,
      rw (decrypt-encrypt d.flushes plain, read_file) (laws.unmarshal-marshal entries plain e),
    ),
    inl refl,
  )
  write_out-Atomic nonce_fault b entries plain d e r = (inr (refl, refl), inl refl)
  write_out-Atomic create_fault b entries plain d e r = (inr (refl, refl), inl refl)
  write_out-Atomic _ true entries plain d e r = (inr (refl, refl), inl refl)
  write_out-Atomic _ false entries plain d e r = (inr (refl, refl), inr (refl, r, refl))

  failed :
      (entries : List TokenEntry) (d : Disk)
      → Atomic codec entries d (false, record d { flushes = d.flushes + 1 })
  failed entries d = (inr (refl, refl), inl refl)

  -- With the laws of the codec: a flush, whatever step fails, either reports success and leaves a file
  -- that reads back as the entries, or reports failure and leaves the file as it was; it leaves no
  -- temporary file behind but one, when it fails and the removal of its temporary file fails too.
  pub flush-Atomic :
      (entries : List TokenEntry) (d : Disk) → Atomic codec entries d (flush codec entries d)
  unfolding flush
  flush-Atomic entries d = elim (Option-cases (codec.marshal entries)) [
    | inl e ↦ subst (λ r. Atomic codec entries d r) (rw (e, flush)) (failed entries d)
    | inr (plain, e) ↦
        subst (λ r. Atomic codec entries d r) (rw (e, flush))
          (write_out-Atomic (codec.fault d.flushes) (codec.removable d.flushes) entries plain d e
            refl)
  ]
