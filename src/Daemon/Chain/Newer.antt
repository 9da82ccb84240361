-- ===== src/Daemon/Chain/Newer.antt =====
-- The order of heads, and that `find_head` keeps the newer of two.
use ticker_cash.Prelude.{
  ◌≤◌, ◌≡◌, refl, Option, none, some, ◌⊎◌, inl, inr, true, false, ltb, ltb→lt, Bool-cases, ◌<◌,
  arith,
}
use ticker_cash.Commit.Types.{HeadCommit}
use ticker_cash.Tx.Build.Types.{HeadUtxo}
use ticker_cash.Daemon.Chain.{newer, keep_newer}

-- An earlier or the same update: a lower counter, or the same counter and no later minute.
abbrev pub NotAfter : HeadCommit → HeadCommit → Type 0
NotAfter c d =
    (c.snapshot.seq < d.snapshot.seq)
    ⊎ ((c.snapshot.seq ≡ d.snapshot.seq) × (c.snapshot.ts ≤ d.snapshot.ts))

NotAfter-trans : (c d e : HeadCommit) → NotAfter c d → NotAfter d e → NotAfter c e
NotAfter-trans c d e (inl p) (inl q) = inl (omega arith)
NotAfter-trans c d e (inl p) (inr q) = inl (omega arith)
NotAfter-trans c d e (inr p) (inl q) = inl (omega arith)
NotAfter-trans c d e (inr p) (inr q) = inr (omega arith, omega arith)

NotAfter-of_newer : (h b : HeadCommit) → newer h b ≡ true → NotAfter b h
unfolding newer
NotAfter-of_newer h b e = elim (Bool-cases (ltb b.snapshot.seq h.snapshot.seq)) [
  | inl lt ↦ inl (ltb→lt _ _ lt)
  | inr ge ↦ inr (ground arith, ground arith)
]

NotAfter-of_not_newer : (h b : HeadCommit) → newer h b ≡ false → NotAfter h b
unfolding newer
NotAfter-of_not_newer h b e = elim (Bool-cases (ltb h.snapshot.seq b.snapshot.seq)) [
  | inl lt ↦ inl (ltb→lt _ _ lt)
  | inr ge ↦ inr (ground arith, ground arith)
]

-- What is found is not older than a head.
abbrev pub Upper : Option HeadUtxo → HeadCommit → Type 0
Upper none c = ⊥
Upper (some h) c = NotAfter c h.commit

pub Upper-trans : (o : Option HeadUtxo) (c d : HeadCommit) → NotAfter c d → Upper o d → Upper o c
Upper-trans none c d h u = u
Upper-trans (some h) c d le u = NotAfter-trans c d h.commit le u

abbrev pub UpperBest : Option HeadUtxo → Option HeadUtxo → Type 0
UpperBest o none = Unit
UpperBest o (some b) = Upper o b.commit

pub keep_newer-Upper :
    (o : Option HeadUtxo) (h : HeadUtxo) (best : Option HeadUtxo)
    → Upper o (keep_newer h best).commit
    → Upper o h.commit × UpperBest o best
unfolding keep_newer
keep_newer-Upper o h none u = (u, tt)
keep_newer-Upper o h (some b) u = elim (Bool-cases (newer h.commit b.commit)) [
  | inl yes' ↦
      let at_h = rw yes' at u in
      (at_h, Upper-trans o b.commit h.commit (NotAfter-of_newer h.commit b.commit yes') at_h)
  | inr no' ↦
      let at_b = rw no' at u in
      (Upper-trans o h.commit b.commit (NotAfter-of_not_newer h.commit b.commit no') at_b, at_b)
]

pub keep_newer_cases :
    (h : HeadUtxo) (best : Option HeadUtxo)
    → (keep_newer h best ≡ h) ⊎ (some (keep_newer h best) ≡ best)
unfolding keep_newer
keep_newer_cases h none = inl refl
keep_newer_cases h (some b) = elim (Bool-cases (newer h.commit b.commit)) [
  | inl yes' ↦ inl (rw yes' refl)
  | inr no' ↦ inr (rw no' refl)
]
