-- ===== src/Carryless/Followed.antt =====
-- What it means that a part of the decoder follows a part of the encoder, and that this composes.
use pyppmd.Base.{ℕ, ◌^◌, ◌≤◌, ◌≡◌, refl, ◌∙◌, ap, Option, some, List, ◌++◌, ◌>>=◌}
use mathlib.Core.List.{append_assoc}
use pyppmd.Carryless.Coder.{Encoder, Decoder}
use pyppmd.Carryless.Settle.{IsFair}
use pyppmd.Carryless.Run.{IsFuture, IsSynced}

-- The encoder goes on to a state that can code the next step, and has written some bytes. Whatever
-- comes behind them, as long as it belongs to the state that the encoder has come to, the decoder
-- goes on as well and comes to the same state.
pub record IsFollowed (encodes : Encoder → Option Encoder) (decodes : Decoder → Option Decoder)
    (p : Encoder) : Type 0 where
  pub last : Encoder
  pub done : encodes p ≡ some last
  pub fair : IsFair last.low last.range
  pub wide : 2 ^ 15 ≤ last.range
  pub written : List ℕ
  pub stream : last.stream ≡ p.stream ++ written
  pub back :
      (t s : List ℕ) → s ≡ written ++ t → IsFuture last.low last.range t → IsFuture p.low p.range s
  pub follow :
      (t s : List ℕ) (e : s ≡ written ++ t) (f : IsFuture last.low last.range t) (d : Decoder)
      → IsSynced (back t s e f) d
      → (d' : Decoder) × (decodes d ≡ some d') × IsSynced f d'

pub IsFollowed-then :
    {f f' : Encoder → Option Encoder} {g g' : Decoder → Option Decoder} {p : Encoder}
    (a : IsFollowed f g p)
    → IsFollowed f' g' a.last
    → IsFollowed (λ e. f e >>= f') (λ d. g d >>= g') p
IsFollowed-then {f} {f'} {g} {g'} {p} a b = record {
  last = b.last;
  done = ap (λ r. r >>= f') a.done ∙ b.done;
  fair = b.fair;
  wide = b.wide;
  written = a.written ++ b.written;
  stream = b.stream ∙ ap (λ s. s ++ b.written) a.stream ∙ append_assoc p.stream a.written b.written;
  back = λ t s e h.
      a.back (b.written ++ t) s (e ∙ append_assoc a.written b.written t)
        (b.back t (b.written ++ t) refl h);
  follow = λ t s e h d synced.
      let (u, first, middle) =
        a.follow (b.written ++ t) s (e ∙ append_assoc a.written b.written t)
          (b.back t (b.written ++ t) refl h) d synced in
      let (v, second, end) = b.follow t (b.written ++ t) refl h u middle in
      (v, ap (λ r. r >>= g') first ∙ second, end);
}
