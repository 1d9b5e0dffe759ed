-- ===== src/Consensus/Engine/Header.antt =====
-- `verify_header` and `verify_double_sign` of crates/vtt-consensus/src/engine.rs.
use vtt.Prelude.{
  ℕ, ◌+◌, ◌/◌, ◌%◌, ◌<◌, ◌≡◌, ◌≢◌, ◌↔◌, refl, List, [], ◌∷◌, true, false, some, arith, u64_mod,
  Option-cases, inl, inr,
}
use vtt.Prelude.Keys.{bytes_test}
use vtt.Prelude.Outcome.{ok}
use vtt.Consensus.Validators.{
  ConsensusParams, ValidatorInfo, ValidatorSet, slot_leader, find_validator, has_validator,
}
use vtt.Consensus.Engine.{
  BlockHeader, Crypto, epoch_for_block, slot_for_block, block_producer, signable_bytes, is_signed,
  verify_header, is_valid_evidence, key_of, verify_double_sign,
}

module _ (crypto : Crypto) (params : ConsensusParams) (header parent : BlockHeader)
    (set : ValidatorSet) where
  -- What makes a header acceptable after its parent.
  pub record IsAccepted : Type 0 where
    pub number : header.number ≡ (parent.number + 1) % u64_mod
    pub linked : header.parent_hash ≡ crypto.blake3_hash (signable_bytes crypto params parent)
    pub later : parent.timestamp < header.timestamp
    pub epoch : header.epoch ≡ header.number / params.epoch_length
    pub slot : header.slot ≡ header.number % params.epoch_length % 0x100000000
    pub leader : ValidatorInfo
    pub leads : slot_leader set header.slot ≡ some leader
    pub producer : header.validator ≡ leader.address
    pub signed : is_signed crypto params leader.public_key header ≡ true

  accepted_sound :
      0 < params.epoch_length → verify_header crypto params header parent set ≡ ok tt → IsAccepted
  unfolding verify_header block_producer slot_for_block epoch_for_block
  accepted_sound pos h =
      let slot = header.number % params.epoch_length % 0x100000000 in
      elim (Option-cases (slot_leader set slot)) [
        | inl nobody ↦ absurd (ground arith)
        | inr (v, e) ↦
            let same : header.slot ≡ slot = ground arith in
            record {
              number = ground arith;
              linked = ground arith;
              later = ground arith;
              epoch = ground arith;
              slot = same;
              leader = v;
              leads = rw same e;
              producer = ground arith;
              signed = ground arith;
            }
      ]

  accepted_complete :
      0 < params.epoch_length → IsAccepted → verify_header crypto params header parent set ≡ ok tt
  unfolding verify_header block_producer slot_for_block epoch_for_block
  accepted_complete pos a =
      let leads = a.leads in
      let slot = a.slot in
      ground (arith, a.number, a.linked, a.later, a.epoch, a.producer, a.signed)

-- With epochs of positive length, `verify_header` accepts exactly the headers that follow their
-- parent: the next number, the parent's hash, a later time, the epoch and slot of the number, and
-- the producer whose turn the slot is, with a good signature if it has a public key.
pub verify_header_iff :
    (crypto : Crypto) (params : ConsensusParams) (header parent : BlockHeader) (set : ValidatorSet)
    → 0 < params.epoch_length
    → (verify_header crypto params header parent set ≡ ok tt)
      ↔ IsAccepted crypto params header parent set
verify_header_iff crypto params header parent set pos = (
  accepted_sound crypto params header parent set pos,
  accepted_complete crypto params header parent set pos,
)

bytes_test_refl : (xs : List ℕ) → bytes_test xs xs ≡ true
bytes_test_refl [] = refl
bytes_test_refl (x ∷ xs) = ground (arith, bytes_test_refl xs)

different : (xs ys : List ℕ) → bytes_test xs ys ≡ false → xs ≢ ys
different xs ys h e = ground (arith, bytes_test_refl xs)

-- A validator is only convicted of double signing as a member of the set, by two headers of one
-- slot that differ in what is signed, each with a good signature of it if it has a public key.
pub verify_double_sign-ok :
    (crypto : Crypto) (params : ConsensusParams) (a b : BlockHeader) (set : ValidatorSet)
    {offender : ℕ}
    → verify_double_sign crypto params a b set ≡ ok offender
    → (a.validator ≡ offender)
      × (b.validator ≡ offender)
      × (a.epoch ≡ b.epoch)
      × (a.slot ≡ b.slot)
      × (signable_bytes crypto params a ≢ signable_bytes crypto params b)
      × (has_validator offender set.validators ≡ true)
      × (let key = key_of crypto params (find_validator offender set.validators) in
          (is_signed crypto params key a ≡ true) × (is_signed crypto params key b ≡ true))
unfolding verify_double_sign is_valid_evidence
verify_double_sign-ok crypto params a b set {offender} h =
    let same : a.validator ≡ offender = ground arith in
    (
      same,
      ground arith,
      ground arith,
      ground arith,
      different (signable_bytes crypto params a) (signable_bytes crypto params b) (ground arith),
      ground arith,
      (ground arith, ground arith),
    )
