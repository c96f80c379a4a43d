-- ===== src/Clock/Fly.antt =====
-- src/Clock.cpp: moving the clock by several steps, and moving it back.
use timer_benchmarks.Common.{
  ◌≡◌, refl, sym, ap, ◌∙◌, true, Bool-cases, inl, inr, List, [], ◌∷◌, ◌++◌, Run, ok, fault,
  out_of_fuel, ◌>>=◌, ℤ, pos, ◌+ℤ◌, negate, is_int64, Int64, +ℤ-zero, +ℤ-cancel, +ℤ-assoc, arith,
}
use timer_benchmarks.Clock.{add_int64, current_time_millis, time_fly}

-- calls of TimeFly one after another
unfoldable pub fly_all : List Int64 → ℤ → Run ℤ
fly_all [] offset = ok offset
fly_all (ms ∷ rest) offset = do offset' ← time_fly ms offset; fly_all rest offset'

-- a step and its opposite, both of which an `int64_t` holds
pub record Trip : Type 0 where
  pub forth : Int64
  pub back : Int64
  pub opposite : back.0 ≡ negate forth.0

abbrev pub forths : List Trip → List Int64
forths [] = []
forths (t ∷ ts) = t.forth ∷ forths ts

-- the opposite steps, the last first
abbrev pub backs : List Trip → List Int64
backs [] = []
backs (t ∷ ts) = backs ts ++ t.back ∷ []

abbrev pub total : List Trip → ℤ
total [] = pos 0
total (t ∷ ts) = t.forth.0 +ℤ total ts

then_ok : (r : Run ℤ) → (r >>= λ x. ok x) ≡ r
then_ok out_of_fuel = refl
then_ok (fault why) = refl
then_ok (ok x) = refl

bind_assoc :
    (r : Run ℤ) (f g h : ℤ → Run ℤ) → ((x : ℤ) → h x ≡ (f x >>= g)) → (r >>= h) ≡ (r >>= f >>= g)
bind_assoc out_of_fuel f g h e = refl
bind_assoc (fault why) f g h e = refl
bind_assoc (ok x) f g h e = e x

fly_all-append :
    (xs : List Int64) (y : Int64) (offset : ℤ)
    → fly_all (xs ++ y ∷ []) offset ≡ (fly_all xs offset >>= time_fly y)
unfolding fly_all
fly_all-append [] y offset = then_ok (time_fly y offset)
fly_all-append (x ∷ xs) y offset =
    bind_assoc (time_fly x offset) (fly_all xs) (time_fly y) (fly_all (xs ++ y ∷ []))
      (fly_all-append xs y)

-- the value of a run that returns
or_zero : Run ℤ → ℤ
or_zero (ok x) = x
or_zero (fault why) = pos 0
or_zero out_of_fuel = pos 0

ok-injective : {x y : ℤ} → ok x ≡ ok y → x ≡ y
unfolding or_zero
ok-injective e = ap or_zero e

flown :
    (trips : List Trip) (offset o : ℤ)
    → is_int64 offset ≡ true
    → fly_all (forths trips) offset ≡ ok o
    → (o ≡ offset +ℤ total trips) × (fly_all (backs trips) o ≡ ok offset)
unfolding fly_all time_fly add_int64
flown [] offset o h e =
    let same : offset ≡ o = ok-injective e in (sym same ∙ sym (+ℤ-zero offset), rw same refl)
flown (t ∷ ts) offset o h e = elim (Bool-cases (is_int64 (offset +ℤ t.forth.0))) [
  | inl k ↦
      let rest = flown ts (offset +ℤ t.forth.0) o k (rw (k) at e) in
      (
        rest.0 ∙ +ℤ-assoc offset t.forth.0 (total ts),
        rw (fly_all-append (backs ts) t.back o, rest.1, t.opposite, +ℤ-cancel offset t.forth.0, h)
            refl,
      )
  | inr k ↦ absurd (ground (arith, rw (k) at e))
]

-- Take any calls of TimeFly that return, by steps whose opposites an `int64_t` holds too, from an
-- offset that it holds. Then the clock shows the system's time and the offset before and the sum of
-- the steps, if an `int64_t` holds that, and the calls of TimeFly by the opposite steps, the last
-- first, return and restore the offset.
pub fly_all-back :
    (trips : List Trip) (offset now o : ℤ)
    → is_int64 offset ≡ true
    → is_int64 (now +ℤ (offset +ℤ total trips)) ≡ true
    → fly_all (forths trips) offset ≡ ok o
    → (current_time_millis now o ≡ ok (now +ℤ (offset +ℤ total trips)))
      × (fly_all (backs trips) o ≡ ok offset)
unfolding current_time_millis add_int64
fly_all-back trips offset now o h k e =
    let (there, home) = flown trips offset o h e in (rw (there, k) refl, home)
