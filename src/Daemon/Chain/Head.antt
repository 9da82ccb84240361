-- ===== src/Daemon/Chain/Head.antt =====
-- Which of the listed outputs `find_head` takes for the head.
use ticker_cash.Prelude.{
  ◌≡◌, refl, sym, ◌∙◌, subst, Option, none, some, and_then, List, [], ◌∷◌, ◌⊎◌, inl, inr, ok, err,
  >>=-eq-ok, ok_or, ok_or-eq-ok, ok-injective, some-injective, All, Any, Any-elim, Option-cases,
  Result-cases, arith,
}
use ticker_cash.Bytes.{Bytes}
use ticker_cash.Text.{Text}
use ticker_cash.External.{External}
use ticker_cash.Commit.Types.{HeadCommit, CommitError, Decoded}
use ticker_cash.Commit.HeadCommit
use ticker_cash.Manifest.{Manifest, category_bytes}
use ticker_cash.Electrum.{minting, NftBody, Utxo}
use ticker_cash.Tx.Covenant.{electrum_scripthash}
use ticker_cash.Tx.Build.Types.{HeadUtxo}
use ticker_cash.Daemon.{bad_hex, Server}
use ticker_cash.Daemon.Chain.{
  nft_in, keep_newer, outpoint, minting_from, minting_at, best_head, find_head,
}
use ticker_cash.Daemon.Chain.Newer.{Upper, UpperBest, keep_newer-Upper, keep_newer_cases}

module _ (x : External) where
  -- The raw commitment of a listed output, if it is a minting NFT of the category.
  abbrev pub raw_of : Text → Utxo → Option Bytes
  raw_of category u =
      and_then (nft_in category minting u.token_data) (λ nft. x.hex_decode (NftBody.commitment nft))

  abbrev pub OnRaw : (Utxo → Bytes → Type 0) → Utxo → Option Bytes → Type 0
  OnRaw P u none = Unit
  OnRaw P u (some raw) = P u raw

  -- One output more is either no minting NFT of the category, or found with its raw commitment.
  minting_from-cons :
      (category : Text) (u : Utxo) (rest : List Utxo) (found : List (Utxo × Bytes))
      → minting_from x category (u ∷ rest) ≡ ok found
      → ((raw_of category u ≡ none) × (minting_from x category rest ≡ ok found))
        ⊎ ((raw : Bytes) × (later : List (Utxo × Bytes)) × (raw_of category u ≡ some raw)
            × (minting_from x category rest ≡ ok later)
            × ((u, raw) ∷ later ≡ found))
  unfolding minting_from
  minting_from-cons category u rest found e =
      elim (Option-cases (nft_in category minting u.token_data)) [
        | inl other ↦ inl (rw other refl, rw (other, minting_from) at e)
        | inr (nft, is_nft) ↦
            let (raw, decoded, e1) =
              >>=-eq-ok (ok_or (x.hex_decode nft.commitment) bad_hex) _
                (rw (is_nft, minting_from) at e) in
            let (later, more, e2) = >>=-eq-ok (minting_from x category rest) _ e1 in
            inr (raw, later, rw is_nft (ok_or-eq-ok _ _ decoded), more, ok-injective e2)
      ]

  -- What holds of all that `minting_at` returns holds of every listed output with a raw commitment.
  minting_from-All :
      (P : Utxo → Bytes → Type 0) (category : Text) (unspent : List Utxo)
      (found : List (Utxo × Bytes))
      → minting_from x category unspent ≡ ok found
      → All (λ p. P p.0 p.1) found
      → All (λ u. OnRaw P u (raw_of category u)) unspent
  minting_from-All P category [] found e h = tt
  minting_from-All P category (u ∷ rest) found e h =
      elim (minting_from-cons category u rest found e) [
        | inl (other, more) ↦ (rw other tt, minting_from-All P category rest found more h)
        | inr (raw, later, is_raw, more, same) ↦
            let h' = subst (All (λ p. P p.0 p.1)) (sym same) h in
            (rw is_raw h'.0, minting_from-All P category rest later more h'.1)
      ]

  -- What is found is one of the listed outputs.
  minting_from-Any :
      (P : Utxo → Bytes → Type 0) (category : Text) (unspent : List Utxo)
      (found : List (Utxo × Bytes))
      → minting_from x category unspent ≡ ok found
      → Any (λ p. P p.0 p.1) found
      → Any (λ u. (raw : Bytes) × (raw_of category u ≡ some raw) × P u raw) unspent
  unfolding minting_from
  minting_from-Any P category [] found e h = subst (Any (λ p. P p.0 p.1)) (sym (ok-injective e)) h
  minting_from-Any P category (u ∷ rest) found e h =
      elim (minting_from-cons category u rest found e) [
        | inl (other, more) ↦ inr (minting_from-Any P category rest found more h)
        | inr (raw, later, is_raw, more, same) ↦ elim (subst (Any (λ p. P p.0 p.1)) (sym same) h) [
          | inl here ↦ inl (raw, is_raw, here)
          | inr there ↦ inr (minting_from-Any P category rest later more there)
        ]
      ]

  -- The head that an output is, its raw commitment being decoded.
  abbrev pub IsHead : Bytes → HeadUtxo → Utxo → Bytes → Type 0
  IsHead category h u raw =
      (HeadCommit.decode raw ≡ ok h.commit)
      × (h.raw ≡ raw)
      × (outpoint x u ≡ ok h.outpoint)
      × (h.value ≡ u.value)
      × (h.category ≡ category)

  -- A head is found that is not older, if the commitment decodes at all.
  abbrev pub Covered : Option HeadUtxo → Decoded HeadCommit → Type 0
  Covered o (err e) = Unit
  Covered o (ok commit) = Upper o commit

  -- One round of the loop.
  best_head-cons :
      (category : Bytes) (best o : Option HeadUtxo) (u : Utxo) (raw : Bytes)
      (rest : List (Utxo × Bytes))
      → best_head x category best ((u, raw) ∷ rest) ≡ ok o
      → ((bad : CommitError) × (HeadCommit.decode raw ≡ err bad)
          × (best_head x category best rest ≡ ok o))
        ⊎ ((h : HeadUtxo) × IsHead category h u raw
            × (best_head x category (some (keep_newer h best)) rest ≡ ok o))
  unfolding best_head
  best_head-cons category best o u raw rest e = elim (Result-cases (HeadCommit.decode raw)) [
    | inr (bad, refused) ↦ inl (bad, refused, rw (refused, best_head) at e)
    | inl (commit, decodes) ↦
        let (op, found, e1) = >>=-eq-ok (outpoint x u) _ (rw (decodes, best_head) at e) in
        inr (
          record {
            outpoint = op;
            value = u.value;
            commit = commit;
            raw = raw;
            category = category;
          },
          (decodes, refl, found, refl, refl),
          e1,
        )
  ]

  best_head-Upper :
      (category : Bytes) (best o : Option HeadUtxo) (found : List (Utxo × Bytes))
      → best_head x category best found ≡ ok o
      → UpperBest o best × All (λ p. Covered o (HeadCommit.decode p.1)) found
  unfolding best_head
  best_head-Upper category none o [] e = (tt, tt)
  best_head-Upper category (some b) o [] e =
      (subst (λ o. Upper o b.commit) (ok-injective e) (inr (refl, omega arith)), tt)
  best_head-Upper category best o ((u, raw) ∷ rest) e =
      elim (best_head-cons category best o u raw rest e) [
        | inl (bad, refused, more) ↦
            let (up, all) = best_head-Upper category best o rest more in (up, (rw refused tt, all))
        | inr (h, is_head, more) ↦
            let (up, all) = best_head-Upper category (some (keep_newer h best)) o rest more in
            let (at_h, at_best) = keep_newer-Upper o h best up in
            (at_best, (rw (is_head.0) at_h, all))
      ]

  -- Where the head comes from.
  abbrev From : Bytes → Option HeadUtxo → List (Utxo × Bytes) → HeadUtxo → Type 0
  From category best found h = Any (λ p. IsHead category h p.0 p.1) found ⊎ (best ≡ some h)

  best_head-From :
      (category : Bytes) (best : Option HeadUtxo) (h : HeadUtxo) (found : List (Utxo × Bytes))
      → best_head x category best found ≡ ok (some h)
      → From category best found h
  unfolding best_head
  best_head-From category best h [] e = inr (ok-injective e)
  best_head-From category best h ((u, raw) ∷ rest) e =
      elim (best_head-cons category best (some h) u raw rest e) [
        | inl (bad, refused, more) ↦ elim (best_head-From category best h rest more) [
          | inl there ↦ inl (inr there)
          | inr same ↦ inr same
        ]
        | inr (g, is_head, more) ↦
            elim (best_head-From category (some (keep_newer g best)) h rest more) [
              | inl there ↦ inl (inr there)
              | inr same ↦ elim (keep_newer_cases g best) [
                | inl is_g ↦ inl (
                    inl (
                      subst (λ k. IsHead category k u raw) (sym is_g ∙ some-injective same)
                        is_head))
                | inr is_best ↦ inr (sym is_best ∙ same)
              ]
            ]
      ]

  -- One of the outputs is the head.
  abbrev pub Listed : Manifest → List Utxo → Option HeadUtxo → Type 0
  Listed m unspent none = Unit
  Listed m unspent (some h) =
      Any
        (λ u.
          (raw : Bytes) × (raw_of m.category u ≡ some raw) × IsHead (category_bytes x m) h u raw)
        unspent

  -- The head that is found has the commitment that its bytes decode to.
  pub find_head-decodes :
      (server : Server) (m : Manifest) (h : HeadUtxo)
      → find_head x server m ≡ ok (some h)
      → HeadCommit.decode h.raw ≡ ok h.commit
  unfolding find_head
  find_head-decodes server m h e =
      let (lock, is_lock, e1) = >>=-eq-ok (ok_or (x.hex_decode m.oracle_lock) bad_hex) _ e in
      let (found, listed, e2) = >>=-eq-ok (minting_at x server m lock) _ e1 in
      elim (best_head-From (category_bytes x m) none h found e2) [
        | inr same ↦ absurd (cc)
        | inl there ↦
            Any-elim (λ p. IsHead (category_bytes x m) h p.0 p.1)
              (HeadCommit.decode h.raw ≡ ok h.commit) found
              (λ p is_head.
                subst (λ raw. HeadCommit.decode raw ≡ ok h.commit) (sym (is_head.1)) (is_head.0))
              there
      ]

  -- Where the server lists outputs at the Oracle lock: the head that `find_head` returns, if any, is one
  -- of them, a minting NFT of the manifest's category whose commitment decodes; and every listed minting
  -- NFT of the category whose commitment decodes has a lower counter than this head, or the same counter
  -- and no later minute, so that no head is returned only where there is no such output.
  pub find_head_newest :
      (server : Server) (m : Manifest) (lock : Bytes) (unspent : List Utxo) (o : Option HeadUtxo)
      → x.hex_decode m.oracle_lock ≡ some lock
      → server.list_unspent (electrum_scripthash x lock) ≡ ok unspent
      → find_head x server m ≡ ok o
      → Listed m unspent o
        × All
            (λ u. OnRaw (λ u raw. Covered o (HeadCommit.decode raw)) u (raw_of m.category u))
            unspent
  unfolding find_head minting_at
  find_head_newest server m lock unspent o is_lock lists e =
      let e1 = rw (is_lock, lists) at e in
      let (found, minting_found, e2) = >>=-eq-ok (minting_from x m.category unspent) _ e1 in
      let (up, all) = best_head-Upper (category_bytes x m) none o found e2 in
      (
        origin o found minting_found e2,
        minting_from-All (λ u raw. Covered o (HeadCommit.decode raw)) m.category unspent found
            minting_found all,
      )
    where
      origin :
          (o : Option HeadUtxo) (found : List (Utxo × Bytes))
          → minting_from x m.category unspent ≡ ok found
          → best_head x (category_bytes x m) none found ≡ ok o
          → Listed m unspent o
      origin none found mf e = tt
      origin (some h) found mf e = elim (best_head-From (category_bytes x m) none h found e) [
        | inl there ↦
            minting_from-Any (λ u raw. IsHead (category_bytes x m) h u raw) m.category unspent found
              mf there
        | inr same ↦ absurd (cc)
      ]
