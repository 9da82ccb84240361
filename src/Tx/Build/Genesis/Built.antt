-- ===== src/Tx/Build/Genesis/Built.antt =====
-- What `build_genesis` returns: the head of a new oracle, and the change.
use ticker_cash.Prelude.{
  ℕ, ◌+◌, ◌%◌, ◌^◌, ◌≤◌, ◌<◌, ◌≡◌, sym, refl, ap, ◌∙◌, subst, not, none, some, [], ◌∷◌, ◌++◌, map,
  reverse, replicate, length, ◌==◌, ltb, ok, refuse_if-eq-ok, ok-injective, All, length-append,
  arith,
}
use ticker_cash.Bytes.{le_bytes, Bytes, u64_mod, wrapping_sub}
use ticker_cash.External.{External}
use ticker_cash.Commit.HeadCommit
use ticker_cash.Commit.Snapshot
use ticker_cash.Tx.Build.Update.{token_of}
use ticker_cash.Crypto.Schnorr.Verify.{CurveLaws}
use ticker_cash.Tx.Types.{Output, Tx, minting_capability}
use ticker_cash.Tx.Encode.{encode_tx, encode_output, encode_outputs}
use ticker_cash.Tx.Script.{push_data, p2pkh_locking_script}
use ticker_cash.Tx.Size.{SameLayout, SameLayout-refl, length-encode_output, length-encode_tx}
use ticker_cash.Tx.Covenant.{Artifacts, oracle_lock}
use ticker_cash.Tx.Build.Types.{P2pkhInput, BuiltTx, finish, category_le, p2pkh_dust}
use ticker_cash.Tx.Build.Sign.{Draft, topup_input, p2pkh_placeholder}
use ticker_cash.Tx.Build.Sign.Values.{sum_values}
use ticker_cash.Tx.Build.Sign.Layout.{IsPlaced}
use ticker_cash.Tx.Build.Sign.Drafted.{sign_drafted-eq-ok, sign_drafted-outputs}
use ticker_cash.Tx.Build.Genesis.{
  genesis_commit, genesis_outputs, genesis_tx, draft_genesis, build_genesis,
}

module _ (x : External) (a : Artifacts) (funding : P2pkhInput) (table_hash : Bytes)
    (reserve initial_ts : ℕ) where
  abbrev head_output : Output
  head_output = record {
    value = reserve;
    locking_script = oracle_lock x a;
    token =
        token_of (category_le funding.outpoint.txid_be) minting_capability
          (HeadCommit.encode (genesis_commit x a table_hash initial_ts));
  }

  size-genesis_tx :
      (v w : ℕ)
      → length (encode_tx (genesis_tx x a funding table_hash reserve initial_ts v))
        ≡ length (encode_tx (genesis_tx x a funding table_hash reserve initial_ts w))
  unfolding genesis_tx genesis_outputs encode_outputs
  size-genesis_tx v w =
      let change : Output = record {
        value = v;
        locking_script = p2pkh_locking_script funding.pkh;
        token = none;
      } in
      length-encode_tx (genesis_tx x a funding table_hash reserve initial_ts v)
        (genesis_tx x a funding table_hash reserve initial_ts w)
        (SameLayout-refl (topup_input funding ∷ [])) refl
        (omega (
          arith,
          length-append (encode_output head_output) (encode_output change ++ []),
          length-append (encode_output head_output)
              (encode_output (record change { value = w }) ++ []),
          length-append (encode_output change) [],
          length-append (encode_output (record change { value = w })) [],
          length-encode_output change w,
        ))

  abbrev IsGenesisDraft : Draft → Type 0
  IsGenesisDraft draft =
      (draft.tx
        ≡ genesis_tx x a funding table_hash reserve initial_ts
            (wrapping_sub (wrapping_sub funding.value reserve) draft.fee))
      × (draft.signers ≡ (0, funding) ∷ [])
      × (funding.outpoint.vout ≡ 0)
      × (draft.fee ≡ (length (encode_tx draft.tx) + 1) % u64_mod)
      × (((reserve + draft.fee) % u64_mod + p2pkh_dust) % u64_mod ≤ funding.value)

  draft_genesis-eq-ok :
      (draft : Draft)
      → draft_genesis x a funding table_hash reserve initial_ts ≡ ok draft
      → IsGenesisDraft draft
  unfolding draft_genesis
  draft_genesis-eq-ok draft e =
      let size = length (encode_tx (genesis_tx x a funding table_hash reserve initial_ts 0)) in
      let fee = (size + 1) % u64_mod in
      let (vout, e1) = refuse_if-eq-ok (not (funding.outpoint.vout == 0)) _ _ e in
      let (covered, e2) =
        refuse_if-eq-ok (ltb funding.value (((reserve + fee) % u64_mod + p2pkh_dust) % u64_mod)) _ _
          e1 in
      subst IsGenesisDraft (ok-injective e2) (
        refl,
        refl,
        ground arith,
        ap (λ size. (size + 1) % u64_mod)
            (size-genesis_tx 0 (wrapping_sub (wrapping_sub funding.value reserve) fee)),
        ground arith,
      )

  draft-IsPlaced :
      (draft : Draft) → IsGenesisDraft draft → All (IsPlaced (Tx.inputs draft.tx)) draft.signers
  unfolding genesis_tx
  draft-IsPlaced draft (is_tx, signers, vout, fee, covered) =
      rw (is_tx, signers) ((topup_input funding, refl, refl), tt)

  -- The head and the change, byte for byte.
  pub genesis_outputs_lem :
      (change : ℕ)
      → genesis_outputs x a funding table_hash reserve initial_ts change
        ≡ record {
          value = reserve;
          locking_script = oracle_lock x a;
          token = some (record {
            category_le = reverse funding.outpoint.txid_be;
            capability = 2;
            commitment = le_bytes 4 initial_ts ++ (replicate 13 0 ++ table_hash);
            amount = 0;
          });
        }
          ∷ record {
            value = change;
            locking_script = p2pkh_locking_script funding.pkh;
            token = none;
          }
          ∷ []
  unfolding genesis_outputs category_le HeadCommit.encode Snapshot.encode le_bytes
  genesis_outputs_lem change = refl

  -- The outputs of what is built, whatever signs it.
  pub build_genesis-outputs :
      (fuel : ℕ) (built : BuiltTx)
      → build_genesis x a fuel funding table_hash reserve initial_ts ≡ some (ok built)
      → (change : ℕ) × (built.tx.outputs
          ≡ genesis_outputs x a funding table_hash reserve initial_ts change)
  unfolding build_genesis genesis_tx
  build_genesis-outputs fuel built e =
      let (draft, is_drafted, outputs) =
        sign_drafted-outputs x fuel (draft_genesis x a funding table_hash reserve initial_ts) built
          e in
      let is_tx = draft_genesis-eq-ok draft is_drafted in
      (
        wrapping_sub (wrapping_sub funding.value reserve) draft.fee,
        outputs ∙ ap Tx.outputs (is_tx.0),
      )

  -- Where k256 obeys the laws of the curve, an encoded transaction is shorter than 2^62 bytes, the
  -- reserve is below 2^62 satoshis and the coin's value fits in a u64: what `build_genesis` returns
  -- spends output 0 of its transaction; it has two outputs, the head and the change; the head is a
  -- minting NFT of the category that is the id of that transaction, with the reserve, at the Oracle
  -- lock, and its commitment is the timestamp, 13 zero bytes and the table hash; the change goes to the
  -- coin's key; its raw bytes are the encoding of the signed transaction and its size is their number;
  -- the fee is one satoshi above the size; outputs and fee together are what the coin holds, and the
  -- change is at least 546 satoshis.
  pub build_genesis-pays :
      (laws : CurveLaws x) (fuel : ℕ) (built : BuiltTx)
      → build_genesis x a fuel funding table_hash reserve initial_ts ≡ some (ok built)
      → built.size < 2 ^ 62
      → reserve < 2 ^ 62
      → funding.value < u64_mod
      → (change : ℕ) × (built.tx.outputs
          ≡ record {
            value = reserve;
            locking_script = oracle_lock x a;
            token = some (record {
              category_le = reverse funding.outpoint.txid_be;
              capability = 2;
              commitment = le_bytes 4 initial_ts ++ (replicate 13 0 ++ table_hash);
              amount = 0;
            });
          }
            ∷ record {
              value = change;
              locking_script = p2pkh_locking_script funding.pkh;
              token = none;
            }
            ∷ [])
        × SameLayout
            (record {
              prev = funding.outpoint;
              unlock_script = push_data (replicate 65 0) ++ push_data funding.public_key;
              sequence = 0xffff_fffe;
            }
              ∷ [])
            built.tx.inputs
        × (funding.outpoint.vout ≡ 0)
        × (built.raw ≡ encode_tx built.tx)
        × (built.size ≡ length built.raw)
        × (built.fee ≡ built.size + 1)
        × (sum_values (map (λ o. o.value) built.tx.outputs) + built.fee ≡ funding.value)
        × (546 ≤ change)
  unfolding build_genesis finish genesis_tx p2pkh_placeholder
  build_genesis-pays laws fuel built e small modest rich =
      let (draft, is_drafted, is_finish, (same, layout, first), size) =
        sign_drafted-eq-ok x laws fuel (draft_genesis x a funding table_hash reserve initial_ts)
          built e (λ draft h. draft-IsPlaced draft (draft_genesis-eq-ok draft h)) in
      let (is_tx, signers, vout, fee, covered) = draft_genesis-eq-ok draft is_drafted in
      let fee' : built.fee ≡ draft.fee = ap BuiltTx.fee is_finish in
      let change = wrapping_sub (wrapping_sub funding.value reserve) draft.fee in
      let outputs = ap Tx.outputs same ∙ ap Tx.outputs is_tx ∙ genesis_outputs_lem change in
      let paid = ap (λ os. sum_values (map (λ (o : Output). o.value) os)) outputs in
      (
        change,
        outputs,
        subst (λ t. SameLayout (Tx.inputs t) built.tx.inputs) is_tx layout,
        vout,
        ap BuiltTx.raw is_finish,
        ap BuiltTx.size is_finish ∙ ap (λ raw. length raw) (sym (ap BuiltTx.raw is_finish)),
        omega arith,
        omega arith,
        omega arith,
      )
