-- ===== src/Tx/Build/Update/Built.antt =====
-- What `build_update` returns: the transaction that the covenant's `update` accepts, paid in full.
use ticker_cash.Prelude.{
  ℕ, ◌+◌, ◌-◌, ◌*◌, ◌%◌, ◌^◌, ◌≤◌, ◌<◌, ◌≡◌, sym, ap, ◌∙◌, subst, some, List, ◌++◌, map, length,
  get_elem?, ok, ◌>>=◌, >>=-eq-ok, All, All-imp, arith,
}
use ticker_cash.Bytes.{Bytes, u64_mod}
use ticker_cash.External.{External}
use ticker_cash.Crypto.Schnorr.Verify.{CurveLaws}
use ticker_cash.Statement.{Statement}
use ticker_cash.Tx.Types.{Output, Tx}
use ticker_cash.Tx.Encode.{encode_tx}
use ticker_cash.Tx.Size.{SameLayout}
use ticker_cash.Tx.Covenant.{Artifacts}
use ticker_cash.Tx.Build.Types.{HeadUtxo, TickerUtxo, P2pkhInput, BuiltTx, finish}
use ticker_cash.Tx.Build.Median.Rank.{IsLowerMedian}
use ticker_cash.Tx.Build.Select.{Placed, first_ts, select_statements}
use ticker_cash.Tx.Build.Select.Placed.{IsSigned, IsSelection, select_statements_sound}
use ticker_cash.Tx.Build.Sign.{Draft, fee_cap}
use ticker_cash.Tx.Build.Sign.Values.{sum_values, add_values-sum_values}
use ticker_cash.Tx.Build.Sign.Layout.{IsSignedFrom, signers_from-later}
use ticker_cash.Tx.Build.Sign.Drafted.{sign_drafted-eq-ok}
use ticker_cash.Tx.Build.Update.{
  latest, update_locktime, median_of, ts_of, update_unlock, update_tx, input_values, draft_update,
  build_update,
}
use ticker_cash.Tx.Build.Update.Parts.{
  IsHighest, latest-IsHighest, median_of-IsLowerMedian, ts_of-first, update_pushes,
  update_unlock-update_pushes, snapshot_bytes, outputs_with, update_outputs-outputs_with,
  inputs_with, update_inputs-inputs_with,
}
use ticker_cash.Tx.Build.Update.Drafts.{IsUpdateDraft, draft_update-eq-ok, draft-IsPlaced}

module _ (x : External) (a : Artifacts) where
  -- What the update pays and pins, at a selection of statements: the value of output 0, the median of
  -- the prices, the minute of the statements, and the locktime before it is cut to 32 bits.
  abbrev pub IsUpdate :
      HeadUtxo
      → Bytes
      → List (Placed Statement)
      → List TickerUtxo
      → List P2pkhInput
      → BuiltTx
      → (value median ts lt : ℕ) → Type 0
  IsUpdate head table placed recycled topups built value median ts lt =
      IsLowerMedian (map (λ p. p.1.price) placed) median
      × All (λ p. p.1.ts ≡ ts) placed
      × (built.tx.outputs
          ≡ outputs_with x a head value (snapshot_bytes head median ts (length placed)))
      × IsHighest (ts - 21_600) recycled lt
      × (built.tx.locktime ≡ lt % 2 ^ 32)
      × SameLayout (inputs_with head (update_pushes x a table placed median ts) recycled topups)
          built.tx.inputs
      × (get_elem? built.tx.inputs 0
          ≡ some (record {
            prev = head.outpoint;
            unlock_script = update_pushes x a table placed median ts;
            sequence = 0xffff_fffe;
          }))
      × (built.raw ≡ encode_tx built.tx)
      × (built.size ≡ length built.raw)
      × (built.fee ≡ built.size + 1)
      × (sum_values (map (λ o. o.value) built.tx.outputs) + built.fee
          ≡ head.value + sum_values (map (λ t. t.value) recycled ++ map (λ t. t.value) topups))
      × (built.fee ≤ 1000 + 2 * length (update_pushes x a table placed median ts))

  updated :
      (laws : CurveLaws x) (head : HeadUtxo) (table : Bytes) (statements : List Statement)
      (placed : List (Placed Statement)) (recycled : List TickerUtxo) (topups : List P2pkhInput)
      (draft : Draft) (built : BuiltTx)
      → IsSelection x head table statements placed
      → (is_draft : IsUpdateDraft x a head table placed recycled topups draft)
      → built ≡ finish x built.tx draft.fee
      → IsSignedFrom x laws draft.tx draft.signers built.tx
      → built.size ≡ length (encode_tx draft.tx)
      → built.size < 2 ^ 63
      → head.value + sum_values (input_values head recycled topups) < u64_mod
      → IsUpdate head table placed recycled topups built is_draft.0
          (median_of placed)
          (first_ts statements)
          (latest (first_ts statements - 21_600) recycled)
  unfolding finish update_tx update_locktime fee_cap
  updated laws head table statements placed recycled topups draft built
        (hashed, few, newer, ascending, signed, counts, many, enough)
        (value, is_tx, signers, fee, capped, paid) is_finish (same, layout, first) size small rich =
      let ts = first_ts statements in
      let all_ts : All (λ p. p.1.ts ≡ ts) placed =
        All-imp (IsSigned x table ts) (λ p. p.1.ts ≡ ts) (λ p h. h.1) placed signed in
      let is_ts = ts_of-first ts placed (omega arith) all_ts in
      let pushes : update_unlock x a table placed
          ≡ update_pushes x a table placed (median_of placed) ts =
        update_unlock-update_pushes x a table placed
        ∙ ap (λ ts. update_pushes x a table placed (median_of placed) ts) is_ts in
      let fee' : built.fee ≡ draft.fee = ap BuiltTx.fee is_finish in
      let total = add_values-sum_values head.value (input_values head recycled topups) rich in
      let outputs : built.tx.outputs
          ≡ outputs_with x a head value
              (snapshot_bytes head (median_of placed) ts (length placed)) =
        ap Tx.outputs same
        ∙ ap Tx.outputs is_tx
        ∙ update_outputs-outputs_with x a head placed value
        ∙ ap
            (λ ts.
              outputs_with x a head value
                (snapshot_bytes head (median_of placed) ts (length placed)))
            is_ts in
      let held = ap (λ os. sum_values (map (λ (o : Output). o.value) os)) outputs in
      let inputs =
        ap Tx.inputs is_tx
        ∙ update_inputs-inputs_with x a head (update_unlock x a table placed) recycled topups
        ∙ ap (λ unlock. inputs_with head unlock recycled topups) pushes in
      (
        median_of-IsLowerMedian placed (omega arith),
        all_ts,
        outputs,
        latest-IsHighest (ts - 21_600) recycled,
        ap Tx.locktime same ∙ ap Tx.locktime is_tx ∙ ap (λ ts. update_locktime ts recycled) is_ts,
        subst (λ is. SameLayout is built.tx.inputs) inputs layout,
        first (rw signers (signers_from-later (1 + length recycled) topups (omega arith)))
            ∙ ap (λ is. get_elem? is 0) inputs,
        ap BuiltTx.raw is_finish,
        ap BuiltTx.size is_finish ∙ ap (λ raw. length raw) (sym (ap BuiltTx.raw is_finish)),
        omega arith,
        omega arith,
        omega (arith, ap (λ unlock. length unlock) pushes),
      )

  -- What is built is signed from a draft of a selection.
  build_update-drafted :
      (laws : CurveLaws x) (fuel : ℕ) (head : HeadUtxo) (table : Bytes)
      (statements : List Statement) (recycled : List TickerUtxo) (topups : List P2pkhInput)
      (built : BuiltTx)
      → build_update x a fuel head table statements recycled topups ≡ some (ok built)
      → (placed : List (Placed Statement)) × (draft : Draft) × IsSelection x head table statements
          placed
        × IsUpdateDraft x a head table placed recycled topups draft
        × (built ≡ finish x built.tx draft.fee)
        × IsSignedFrom x laws draft.tx draft.signers built.tx
        × (built.size ≡ length (encode_tx draft.tx))
  unfolding build_update
  build_update-drafted laws fuel head table statements recycled topups built e =
      let selected = select_statements x head table statements in
      let drafted = (selected >>= λ placed. draft_update x a head table placed recycled topups) in
      let invert : (draft : Draft)
          → drafted ≡ ok draft
          → (placed : List (Placed Statement)) × (selected ≡ ok placed)
            × IsUpdateDraft x a head table placed recycled topups draft =
        λ draft h.
          (let (placed, sel, d) = >>=-eq-ok selected _ h in
            (placed, sel, draft_update-eq-ok x a head table placed recycled topups draft d)) in
      let (draft, is_drafted, is_finish, from, size) =
        sign_drafted-eq-ok x laws fuel drafted built e (λ draft h.
          (let (placed, sel, d) = invert draft h in
            draft-IsPlaced x a head table placed recycled topups draft d)) in
      let (placed, sel, d) = invert draft is_drafted in
      (
        placed,
        draft,
        select_statements_sound x head table statements placed sel,
        d,
        is_finish,
        from,
        size,
      )

  -- Where k256 obeys the laws of the curve, an encoded transaction is shorter than 2^63 bytes, as every
  -- Rust vector is, and the inputs' values sum to less than 2^64: what `build_update` returns carries
  -- statements selected as `select_statements_sound` says, with the lower median of their prices and
  -- their one minute; it has exactly three outputs, the head at the Oracle lock with what remains, its
  -- commitment the minute, the next counter twice, the median, the number of statements and the old
  -- table hash, and two Tickers of 792 satoshis with the same 17 bytes of snapshot; its locktime is the
  -- highest of six hours before the minute and the recycle times, cut to 32 bits; its inputs are the
  -- head, the Tickers and the top-ups in order, and the head's unlocking script pushes the median, the
  -- signatures, prices and rows of the statements, the minute, the table, the selector 0 and the redeem
  -- script; its raw bytes are the encoding of that signed transaction and its size is their number; the
  -- fee is one satoshi above the size and at most 1,000 and two for each byte of that script; and
  -- outputs and fee together are what the inputs hold.
  pub build_update-IsUpdate :
      (laws : CurveLaws x) (fuel : ℕ) (head : HeadUtxo) (table : Bytes)
      (statements : List Statement) (recycled : List TickerUtxo) (topups : List P2pkhInput)
      (built : BuiltTx)
      → build_update x a fuel head table statements recycled topups ≡ some (ok built)
      → built.size < 2 ^ 63
      → head.value + sum_values (map (λ t. t.value) recycled ++ map (λ t. t.value) topups) < u64_mod
      → (placed : List (Placed Statement)) × (value : ℕ) × (median : ℕ) × (ts : ℕ) × (lt : ℕ)
        × IsSelection x head table statements placed
        × IsUpdate head table placed recycled topups built value median ts lt
  build_update-IsUpdate laws fuel head table statements recycled topups built e small rich =
      let (placed, draft, selection, d, is_finish, from, size) =
        build_update-drafted laws fuel head table statements recycled topups built e in
      (
        placed,
        d.0,
        median_of placed,
        first_ts statements,
        latest (first_ts statements - 21_600) recycled,
        selection,
        updated laws head table statements placed recycled topups draft built selection d is_finish
            from size small rich,
      )

  -- The locktime of an update that is built, and the selection of its statements.
  pub build_update-locktime :
      (laws : CurveLaws x) (fuel : ℕ) (head : HeadUtxo) (table : Bytes)
      (statements : List Statement) (recycled : List TickerUtxo) (topups : List P2pkhInput)
      (built : BuiltTx)
      → build_update x a fuel head table statements recycled topups ≡ some (ok built)
      → (placed : List (Placed Statement)) × IsSelection x head table statements placed
        × (built.tx.locktime ≡ update_locktime (ts_of placed) recycled)
  unfolding update_tx
  build_update-locktime laws fuel head table statements recycled topups built e =
      let (placed, draft, selection, d, is_finish, from, size) =
        build_update-drafted laws fuel head table statements recycled topups built e in
      (placed, selection, ap Tx.locktime from.0 ∙ ap Tx.locktime d.1)
