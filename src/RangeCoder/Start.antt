-- ===== src/RangeCoder/Start.antt =====
-- Ppmd7z_RangeDec_Init on a stream of bytes.
use pyppmd.Base.{
  ℕ, ◌+◌, ◌*◌, ◌^◌, ◌<◌, ◌≡◌, refl, List, ◌∷◌, ◌++◌, arith, length, ap, true, lt→ltb, u32, ◌<<<◌,
}
use pyppmd.Base.Bits.{bit_or-byte}
use native.Mathlib.Nat.{lt_of_mul-lt-mul_right}
use pyppmd.RangeCoder.Dec.{RangeDec, read, read_code, read_codes, init_dec}
use pyppmd.RangeCoder.Value.{All, IsByte, pow256, value}

abbrev loaded : ℕ → List ℕ → RangeDec
loaded code t = record { range = 0xFFFF_FFFF; code = code; stream = t }

read_code-loaded :
    (code b : ℕ) (t : List ℕ)
    → code < 2 ^ 24
    → b < 256
    → read_code (loaded code (b ∷ t)) ≡ loaded (code * 256 + b) t
unfolding read_code read
read_code-loaded code b t small byte =
    let shifted : u32 (code <<< 8) ≡ code * 256 = omega arith in
    rw (shifted, bit_or-byte code b byte) refl

-- The state behind a successful start: `s` is left of the encoder's bytes.
pub record IsStarted (out s rest : List ℕ) (d : RangeDec) : Type 0 where
  pub done : init_dec (out ++ rest) ≡ (true, d)
  pub range : d.range ≡ 0xFFFF_FFFF
  pub stream : d.stream ≡ s ++ rest
  pub bytes : All IsByte s
  pub size : length out ≡ length s + 5
  pub sum : d.code * pow256 (length s) + value s ≡ value out

abbrev code_of : ℕ → ℕ → ℕ → ℕ → ℕ
code_of a b c d = ((a * 256 + b) * 256 + c) * 256 + d

read_codes-loaded :
    (a b c d : ℕ) (t : List ℕ)
    → a < 256
    → b < 256
    → c < 256
    → d < 256
    → read_codes 4 (loaded 0 (a ∷ b ∷ c ∷ d ∷ t)) ≡ loaded (code_of a b c d) t
unfolding read_codes
read_codes-loaded a b c d t ha hb hc hd =
    rw
      (
        read_code-loaded 0 a (b ∷ c ∷ d ∷ t) (omega arith) ha,
        read_code-loaded (0 * 256 + a) b (c ∷ d ∷ t) (omega arith) hb,
        read_code-loaded ((0 * 256 + a) * 256 + b) c (d ∷ t) (omega arith) hc,
        read_code-loaded (((0 * 256 + a) * 256 + b) * 256 + c) d t (omega arith) hd,
      )
      (ap (λ (n : ℕ). loaded n t) (omega arith))

init_dec-loaded :
    (a b c d : ℕ) (t : List ℕ)
    → a < 256
    → b < 256
    → c < 256
    → d < 256
    → code_of a b c d < 0xFFFF_FFFF
    → init_dec (0 ∷ a ∷ b ∷ c ∷ d ∷ t) ≡ (true, loaded (code_of a b c d) t)
unfolding init_dec read
init_dec-loaded a b c d t ha hb hc hd small =
    rw (read_codes-loaded a b c d t ha hb hc hd, lt→ltb _ _ small) refl

-- A stream whose number lies in the first range.
pub init_dec-IsStarted :
    (k : ℕ) (out rest : List ℕ)
    → All IsByte out
    → length out ≡ k + 5
    → value out < 0xFFFF_FFFF * pow256 k
    → (s : List ℕ) × (d : RangeDec) × IsStarted out s rest d
unfolding value pow256
init_dec-IsStarted k (z ∷ a ∷ b ∷ c ∷ d ∷ s) rest (_, (ha, (hb, (hc, (hd, hs))))) long small = (
  s,
  loaded (code_of a b c d) (s ++ rest),
  record {
    done = rw clear (init_dec-loaded a b c d (s ++ rest) ha hb hc hd code);
    range = refl;
    stream = refl;
    bytes = hs;
    size = omega arith;
    sum = rw clear (omega arith);
  },
)
  where
    same : k ≡ length s
    same = omega arith

    below : ((z * 2 ^ 32 + code_of a b c d) * pow256 (length s) < 0xFFFF_FFFF * pow256 (length s))
    below = omega (arith, (rw same at small))

    whole : z * 2 ^ 32 + code_of a b c d < 0xFFFF_FFFF
    whole = lt_of_mul-lt-mul_right (pow256 (length s)) below

    clear : z ≡ 0
    clear = omega (arith, whole)

    code : code_of a b c d < 0xFFFF_FFFF
    code = omega (arith, whole)
init_dec-IsStarted k _ rest bytes long small = absurd (omega arith)
