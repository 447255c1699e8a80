-- ===== src/Common/Loops.antt =====
-- The loop forms of the program, each with its rule.
use Prim.Native.Nat.{ℕ, zero, suc, ◌+◌, ◌≤◌, ◌<◌, ◌^◌}
use mathlib.Core.Path.{◌≡◌, refl}
use mathlib.Core.Bool.{Bool, true, false}
use mathlib.Core.Logic.{inl, inr}
use native.Mathlib.Omega.{arith}
use ee542_lab2_fast_reliable.Common.Tests.{Bool-cases, ◌==◌}
use ee542_lab2_fast_reliable.Common.Words.{inc32, inc32_fits}

-- `for (i = first; i < first + rounds; ++i) s = body(i, s);`
unfoldable pub for_range {ℓ} : {S : Type ℓ} → ℕ → ℕ → (ℕ → S → S) → S → S
for_range zero first body s = s
for_range (suc rounds) first body s = for_range rounds (first + 1) body (body first s)

pub for_range_inv {ℓ κ} :
    {S : Type ℓ} (P : ℕ → S → Type κ) (body : ℕ → S → S) (start last : ℕ)
    → ((i : ℕ) (s : S) → start ≤ i → i < last → P i s → P (i + 1) (body i s))
    → (rounds first : ℕ) (s : S) → start ≤ first
    → first + rounds ≡ last
    → P first s
    → P last (for_range rounds first body s)
unfolding for_range
for_range_inv P body start last keep zero first s b e h =
    let e' : first ≡ last = omega arith in rw (← e') h
for_range_inv P body start last keep (suc rounds) first s b e h =
    for_range_inv P body start last keep rounds (first + 1) (body first s) (omega arith)
      (omega arith) (keep first s b (omega arith) h)

-- `for (i = first + rounds; i > first;) { --i; s = body(i, s); }`
unfoldable pub for_down {ℓ} : {S : Type ℓ} → ℕ → ℕ → (ℕ → S → S) → S → S
for_down zero first body s = s
for_down (suc rounds) first body s = for_down rounds first body (body (first + rounds) s)

pub for_down_inv {ℓ κ} :
    {S : Type ℓ} (P : ℕ → S → Type κ) (body : ℕ → S → S) (first stop : ℕ)
    → ((i : ℕ) (s : S) → first ≤ i → i < stop → P (i + 1) s → P i (body i s))
    → (rounds next : ℕ) (s : S) → next ≡ first + rounds
    → next ≤ stop
    → P next s
    → P first (for_down rounds first body s)
unfolding for_down
for_down_inv P body first stop keep zero next s e b h =
    let e' : next ≡ first = omega arith in rw (← e') h
for_down_inv P body first stop keep (suc rounds) next s e b h =
    let e' : next ≡ first + rounds + 1 = omega arith in
    for_down_inv P body first stop keep rounds (first + rounds) (body (first + rounds) s) refl
      (omega arith) (keep (first + rounds) s (omega arith) (omega arith) (rw (← e') h))

-- `while (test(i)) ++i;` on a `uint32_t`, with fuel.
unfoldable pub advance : ℕ → (ℕ → Bool) → ℕ → ℕ
advance zero test i = i
advance (suc fuel) test i = elim (test i) [ true ↦ advance fuel test (inc32 i) | false ↦ i ]

-- What the loop has passed, and where it stops: below `limit` unless the fuel was short.
pub record Stops (test : ℕ → Bool) (first stop : ℕ) : Type 0 where
  pub from : first ≤ stop
  pub passed : (j : ℕ) → first ≤ j → j < stop → test j ≡ true
  pub stopped : test stop ≡ false

-- A test that fails from `limit` on stops the loop within `limit - i` rounds, before any wrap.
pub advance-Stops :
    (test : ℕ → Bool) (limit : ℕ)
    → limit < 2 ^ 32
    → ((j : ℕ) → test j ≡ true → j < limit)
    → (fuel i : ℕ) → limit < i + fuel
    → Stops test i (advance fuel test i)
unfolding advance
advance-Stops test limit fits below zero i h = record {
  from = omega arith;
  passed = λ j p q. absurd (omega arith);
  stopped = elim (Bool-cases (test i)) [ inl e ↦ absurd (omega (arith, below i e)) | inr e ↦ e ];
}
advance-Stops test limit fits below (suc fuel) i h = elim (Bool-cases (test i)) [
  | inl e ↦
      let small = below i e in
      let next : inc32 i ≡ i + 1 = inc32_fits i (omega arith) in
      let rest = advance-Stops test limit fits below fuel (i + 1) (omega arith) in
      rw (e, next, advance)
        (record {
          from = omega (arith, rest.from);
          passed = λ j p q. at_head i j e p (λ r. rest.passed j r q);
          stopped = rest.stopped;
        })
  | inr e ↦
      rw (e, advance)
        (record { from = omega arith; passed = λ j p q. absurd (omega arith); stopped = e })
]
  where
    at_head : (i j : ℕ) → test i ≡ true → i ≤ j → (i + 1 ≤ j → test j ≡ true) → test j ≡ true
    at_head i j e p rest = elim (Bool-cases (i == j)) [
      | inl same ↦ let s : i ≡ j = ground arith in rw (← s) e
      | inr other ↦ rest (ground arith)
    ]
