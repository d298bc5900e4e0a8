-- ===== src/Unikey/Charset/Checked.antt =====
-- What a check of every index of a table says of each.
use chromiumos_devenv.Common.{
  ℕ, zero, suc, ◌+◌, ◌≤◌, ◌<◌, ◌≡◌, ◌≢◌, sym, ap, ◌∙◌, Bool, true, false, List, arith, ◌==◌, ==_iff,
  if◌then◌else◌, get_elem?, Bool-cases, inl, inr,
}
use chromiumos_devenv.Unikey.Charset.{entry_or}

-- `p` holds of `n` numbers from `i` on.
unfoldable pub holds_from : (ℕ → Bool) → ℕ → ℕ → Bool
holds_from p i zero = true
holds_from p i (suc n) = if p i then holds_from p (i + 1) n else false

pub holds_at : (p : ℕ → Bool) (i n x : ℕ) → holds_from p i n ≡ true → i ≤ x → x < i + n → p x ≡ true
unfolding holds_from
holds_at p i zero x h lo hi = absurd (omega arith)
holds_at p i (suc n) x h lo hi = elim (Bool-cases (i == x)) [
  | inl here ↦ ap p (sym ((==_iff i x).0 here)) ∙ first
  | inr later ↦ holds_at p (i + 1) n x rest (omega (arith, apart later)) (omega arith)
]
  where
    first : p i ≡ true
    first = ground arith

    rest : holds_from p (i + 1) n ≡ true
    rest = ground arith

    apart : (i == x) ≡ false → i ≢ x
    apart q = ground arith

-- The entry of a table.
abbrev pub entry : List ℕ → ℕ → ℕ
entry table i = entry_or 0 (get_elem? table i)
