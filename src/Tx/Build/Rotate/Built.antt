-- ===== src/Tx/Build/Rotate/Built.antt =====
-- What `build_rotate` and `build_migration` return: one head, approved by a majority, paid in full.
use mathlib.Core.Option
use ticker_cash.Prelude.{
  ℕ, ◌+◌, ◌*◌, ◌^◌, ◌≤◌, ◌<◌, ◌≡◌, refl, sym, ap, ◌∙◌, subst, false, Option, none, some, List, [],
  ◌∷◌, ◌++◌, length, map, take, reverse, replicate, concat, get_elem?, Result, ok, err, All, arith,
  map-eq-some,
}
use ticker_cash.Bytes.{Bytes, u64_mod, wrapping_sub}
use ticker_cash.External.{External}
use ticker_cash.Commit.Types.{snapshot_len}
use ticker_cash.Commit.Legacy.{snapshot26_len}
use ticker_cash.Crypto.Schnorr.Verify.{CurveLaws}
use ticker_cash.Statement.{Approval}
use ticker_cash.Tx.Types.{Output, Tx}
use ticker_cash.Tx.Size.{SameLayout}
use ticker_cash.Tx.Covenant.{
  Artifacts, oracle_lock, oracle_redeem, oracle26_lock, oracle26_redeem, table_hash, table_rows,
}
use ticker_cash.Tx.Script.{push_data, push_int}
use ticker_cash.Tx.Build.Types.{
  BuildError, HeadUtxo, LegacyHeadUtxo, P2pkhInput, BuiltTx, finish, category_le,
}
use ticker_cash.Tx.Build.Sort.{Ascending}
use ticker_cash.Tx.Build.Select.{Placed, row_of, place_approvals}
use ticker_cash.Tx.Build.Select.Approvals.{IsApproved, place_approvals_sound}
use ticker_cash.Tx.Build.Sign.{p2pkh_placeholder, sign_drafted, fee_cap, add_values}
use ticker_cash.Tx.Build.Sign.Values.{sum_values, add_values-sum_values}
use ticker_cash.Tx.Build.Sign.Layout.{signers_from-later}
use ticker_cash.Tx.Build.Sign.Drafted.{sign_drafted-eq-ok}
use ticker_cash.Tx.Build.Rotate.Drafts.{draft_rotate-eq-ok, draft-IsPlaced}
use ticker_cash.Tx.Build.Rotate.{
  encode_tx, Spent, approval_sigs, rotate_unlock, rotate_inputs, rotate_outputs, rotate_tx,
  draft_rotate, migration_tail, state_of, spent_head, spent_legacy, rotate_generic, build_rotate,
  build_migration,
}

approval_sigs-concat :
    (placed : List (Placed Bytes)) → approval_sigs placed ≡ concat (map (λ p. p.1) placed)
unfolding approval_sigs
approval_sigs-concat [] = refl
approval_sigs-concat (p ∷ rest) = ap (λ sigs. p.1 ++ sigs) (approval_sigs-concat rest)

module _ (spent : Spent) (table next_lock tail : Bytes) (placed : List (Placed Bytes))
    (topups : List P2pkhInput) where
  -- The unlocking script of the head: the signatures and the rows of the placed approvals, the table,
  -- the selector 1 and the redeem script.
  abbrev pub rotation_unlock : Bytes
  rotation_unlock =
      push_data (concat (map (λ p. p.1) placed))
      ++ (push_data (map (λ p. p.0) placed)
          ++ (push_data table
              ++ (push_int (record { negative = false; unsigned_abs = 1 })
                  ++ push_data spent.redeem)))

  -- The head moves to the next lock with the state and the tail, for a fee of one satoshi above the size
  -- of its encoding, and at least the dust limit remains.
  abbrev pub IsRotation : BuiltTx → ℕ → Type 0
  IsRotation built value =
      (built.tx.outputs
        ≡ record {
          value = value;
          locking_script = next_lock;
          token = some (record {
            category_le = reverse spent.category;
            capability = 2;
            commitment = spent.state ++ tail;
            amount = 0;
          });
        }
          ∷ [])
      × SameLayout
          (record { prev = spent.outpoint; unlock_script = rotation_unlock; sequence = 0xffff_fffe }
            ∷ map
                (λ t. record {
                  prev = t.outpoint;
                  unlock_script = push_data (replicate 65 0) ++ push_data t.public_key;
                  sequence = 0xffff_fffe;
                })
                topups)
          built.tx.inputs
      × (get_elem? built.tx.inputs 0
          ≡ some (record {
            prev = spent.outpoint;
            unlock_script = rotation_unlock;
            sequence = 0xffff_fffe;
          }))
      × (built.raw ≡ encode_tx built.tx)
      × (built.size ≡ length built.raw)
      × (built.fee ≡ built.size + 1)
      × (sum_values (map (λ o. o.value) built.tx.outputs) + built.fee
          ≡ spent.value + sum_values (map (λ t. t.value) topups))
      × (546 ≤ value)
      × (built.fee ≤ 1000 + 2 * length rotation_unlock)

  rotate_unlock_lem : rotate_unlock spent.redeem table placed ≡ rotation_unlock
  unfolding rotate_unlock
  rotate_unlock_lem = rw (approval_sigs-concat placed) refl

  rotated :
      (x : External) (laws : CurveLaws x) (fuel : ℕ) (built : BuiltTx)
      → sign_drafted x fuel (draft_rotate spent table placed next_lock tail topups)
        ≡ some (ok built)
      → built.size < 2 ^ 63
      → spent.value + sum_values (map (λ t. t.value) topups) < u64_mod
      → (value : ℕ) × IsRotation built value
  unfolding finish rotate_tx rotate_inputs rotate_outputs category_le fee_cap p2pkh_placeholder
  rotated x laws fuel built e small rich =
      let (draft, is_drafted, is_finish, (same, layout, first), size) =
        sign_drafted-eq-ok x laws fuel (draft_rotate spent table placed next_lock tail topups) built
          e
          (λ draft h.
            draft-IsPlaced spent table next_lock tail placed topups draft
              (draft_rotate-eq-ok spent table next_lock tail placed topups draft h)) in
      let (is_tx, signers, fee, capped, covered) =
        draft_rotate-eq-ok spent table next_lock tail placed topups draft is_drafted in
      let fee' : built.fee ≡ draft.fee = ap BuiltTx.fee is_finish in
      let total = add_values-sum_values spent.value (map (λ t. t.value) topups) rich in
      let outputs = ap Tx.outputs same ∙ ap Tx.outputs is_tx in
      let paid = ap (λ os. sum_values (map (λ (o : Output). o.value) os)) outputs in
      let inputs =
        ap Tx.inputs is_tx ∙ ap (λ unlock. rotate_inputs spent unlock topups) rotate_unlock_lem in
      (
        wrapping_sub (add_values spent.value (map (λ t. t.value) topups)) draft.fee,
        (
          outputs,
          subst (λ is. SameLayout is built.tx.inputs) inputs layout,
          first (rw signers (signers_from-later 1 topups (omega arith)))
              ∙ ap (λ is. get_elem? is 0) inputs,
          ap BuiltTx.raw is_finish,
          ap BuiltTx.size is_finish ∙ ap (λ raw. length raw) (sym (ap BuiltTx.raw is_finish)),
          omega arith,
          omega arith,
          omega arith,
          omega (arith, ap (λ unlock. length unlock) rotate_unlock_lem),
        ),
      )

module _ (x : External) (a : Artifacts) (laws : CurveLaws x) where
  rotate_generic-eq-ok :
      (fuel : ℕ) (m : Result BuildError (List (Placed Bytes))) (o : Option Spent)
      (table next_lock tail : Bytes) (topups : List P2pkhInput) (built : BuiltTx)
      → rotate_generic x a fuel m o table next_lock tail topups ≡ some (ok built)
      → (placed : List (Placed Bytes)) × (spent : Spent) × (m ≡ ok placed)
        × (o ≡ some spent)
        × (sign_drafted x fuel (draft_rotate spent table placed next_lock tail topups)
            ≡ some (ok built))
  unfolding rotate_generic
  rotate_generic-eq-ok fuel (err e) o table next_lock tail topups built h = cc
  rotate_generic-eq-ok fuel (ok placed) none table next_lock tail topups built h = cc
  rotate_generic-eq-ok fuel (ok placed) (some spent) table next_lock tail topups built h =
      (placed, spent, refl, refl, h)

  -- The rows of the approvals: increasing, each with its key's signature, and a majority.
  abbrev pub IsMajority : (table hash cat_vm next_lock tail : Bytes) → List (Placed Bytes) → Type 0
  IsMajority table hash cat_vm next_lock tail placed =
      (table_hash x table ≡ hash)
      × Ascending row_of placed
      × All (IsApproved x table hash cat_vm next_lock tail) placed
      × (table_rows table < length placed * 2)

  majority :
      (table hash cat_vm next_lock tail : Bytes) (approvals : List Approval)
      (placed : List (Placed Bytes))
      → place_approvals x table hash cat_vm next_lock tail approvals ≡ ok placed
      → IsMajority table hash cat_vm next_lock tail placed
  majority table hash cat_vm next_lock tail approvals placed e =
      let (hashed, ascending, approved, many, most) =
        place_approvals_sound x table hash cat_vm next_lock tail approvals placed e in
      (hashed, ascending, approved, most)

  state_of-eq-some :
      (len : ℕ) (raw state : Bytes) → state_of x a len raw ≡ some state → state ≡ take len raw
  unfolding state_of
  state_of-eq-some len raw state e = ground arith

  -- Where k256 obeys the laws of the curve, an encoded transaction is shorter than 2^63 bytes and the
  -- inputs' values sum to less than 2^64: what `build_rotate` returns carries, in the order of the rows,
  -- signatures of a majority of the rows of the head's table over this rotation; it has one output, a
  -- minting NFT of the head's category at the next lock, whose commitment is the first 17 bytes of the
  -- head's commitment and then the tail; its inputs are the head and the top-ups in order, and the
  -- head's unlocking script pushes the signatures, the rows, the table, the selector 1 and the redeem
  -- script; its raw bytes are the encoding of the signed transaction and its size is their number; the
  -- fee is one satoshi above the size and at most 1,000 and two for each byte of that script; output and
  -- fee together are what the inputs hold, and at least 546 satoshis remain.
  pub build_rotate-IsRotation :
      (fuel : ℕ) (head : HeadUtxo) (table next_lock tail : Bytes) (approvals : List Approval)
      (topups : List P2pkhInput) (built : BuiltTx)
      → build_rotate x a fuel head table next_lock tail approvals topups ≡ some (ok built)
      → built.size < 2 ^ 63
      → head.value + sum_values (map (λ t. t.value) topups) < u64_mod
      → (placed : List (Placed Bytes)) × (value : ℕ) × IsMajority table head.commit.table_hash
          (reverse head.category)
          next_lock
          tail
          placed
        × IsRotation
            (record {
              outpoint = head.outpoint;
              value = head.value;
              raw_commit = head.raw;
              state = take 17 head.raw;
              category = head.category;
              lock_in = oracle_lock x a;
              redeem = oracle_redeem a;
            })
            table
            next_lock
            tail
            placed
            topups
            built
            value
  unfolding build_rotate category_le
  build_rotate-IsRotation fuel head table next_lock tail approvals topups built e small rich =
      let cat_vm = category_le head.category in
      let (placed, spent, is_placed, is_spent, signed) =
        rotate_generic-eq-ok fuel
          (place_approvals x table head.commit.table_hash cat_vm next_lock tail approvals)
          (Option.map (spent_head x a head) (state_of x a snapshot_len head.raw)) table next_lock
          tail topups built e in
      let (state, cut, same) =
        map-eq-some (spent_head x a head) (state_of x a snapshot_len head.raw) is_spent in
      let is_state = state_of-eq-some snapshot_len head.raw state cut in
      let spent_is = ap (spent_head x a head) (sym is_state) ∙ same in
      let (value, rotation) =
        rotated (spent_head x a head (take snapshot_len head.raw)) table next_lock tail placed
          topups x laws fuel built
          (subst
            (λ spent.
              sign_drafted x fuel (draft_rotate spent table placed next_lock tail topups)
              ≡ some (ok built))
            (sym spent_is) signed)
          small rich in
      (
        placed,
        value,
        majority table head.commit.table_hash cat_vm next_lock tail approvals placed is_placed,
        rotation,
      )

  -- Where k256 obeys the laws of the curve, an encoded transaction is shorter than 2^63 bytes and the
  -- inputs' values sum to less than 2^64: what `build_migration` returns carries, in the order of the
  -- rows, signatures of a majority of the rows of the v26 head's table over this rotation; it has one
  -- output, a minting NFT of the head's category at the v27 lock, whose commitment is the first 13 bytes
  -- of the head's commitment, four zero bytes and the table hash; its inputs are the head and the
  -- top-ups in order, and the head's unlocking script pushes the signatures, the rows, the table, the
  -- selector 1 and the v26 redeem script; its raw bytes are the encoding of the signed transaction and
  -- its size is their number; the fee is one satoshi above the size and at most 1,000 and two for each
  -- byte of that script; output and fee together are what the inputs hold, and at least 546 satoshis
  -- remain.
  pub build_migration-IsRotation :
      (fuel : ℕ) (head : LegacyHeadUtxo) (table : Bytes) (approvals : List Approval)
      (topups : List P2pkhInput) (built : BuiltTx)
      → build_migration x a fuel head table approvals topups ≡ some (ok built)
      → built.size < 2 ^ 63
      → head.value + sum_values (map (λ t. t.value) topups) < u64_mod
      → (placed : List (Placed Bytes)) × (value : ℕ) × IsMajority table head.commit.table_hash
          (reverse head.category)
          (oracle_lock x a)
          (replicate 4 0 ++ head.commit.table_hash)
          placed
        × IsRotation
            (record {
              outpoint = head.outpoint;
              value = head.value;
              raw_commit = head.raw;
              state = take 13 head.raw;
              category = head.category;
              lock_in = oracle26_lock x a;
              redeem = oracle26_redeem a;
            })
            table
            (oracle_lock x a)
            (replicate 4 0 ++ head.commit.table_hash)
            placed
            topups
            built
            value
  unfolding build_migration migration_tail category_le
  build_migration-IsRotation fuel head table approvals topups built e small rich =
      let cat_vm = category_le head.category in
      let next_lock = oracle_lock x a in
      let tail = migration_tail head.commit.table_hash in
      let (placed, spent, is_placed, is_spent, signed) =
        rotate_generic-eq-ok fuel
          (place_approvals x table head.commit.table_hash cat_vm next_lock tail approvals)
          (Option.map (spent_legacy x a head) (state_of x a snapshot26_len head.raw)) table
          next_lock tail topups built e in
      let (state, cut, same) =
        map-eq-some (spent_legacy x a head) (state_of x a snapshot26_len head.raw) is_spent in
      let is_state = state_of-eq-some snapshot26_len head.raw state cut in
      let spent_is = ap (spent_legacy x a head) (sym is_state) ∙ same in
      let (value, rotation) =
        rotated (spent_legacy x a head (take snapshot26_len head.raw)) table next_lock tail placed
          topups x laws fuel built
          (subst
            (λ spent.
              sign_drafted x fuel (draft_rotate spent table placed next_lock tail topups)
              ≡ some (ok built))
            (sym spent_is) signed)
          small rich in
      (
        placed,
        value,
        majority table head.commit.table_hash cat_vm next_lock tail approvals placed is_placed,
        rotation,
      )
