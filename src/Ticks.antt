-- ===== src/Ticks.antt =====
-- tick.c and arch/x86/timer.c: the count of clock ticks, and the timer's frequency and handler.
use mink.Prelude.{
  ℕ, zero, suc, ◌+◌, ◌-◌, ◌/◌, ◌%◌, ◌^◌, ◌<◌, ◌≡◌, refl, arith, Bool, true, ◌==◌, ltb,
  if◌then◌else◌, Outcome, ok, undefined, ◌>>=◌, Bool-cases, inl, inr,
}
use mink.Interrupts
use mink.Interrupts.{Machine, irq_isr}

-- `jiffies`, and how often "." was printed.
pub record Clock : Type 0 where
  pub jiffies : ℕ
  pub dots : ℕ

unfoldable pub uptime_jiffies : Clock → ℕ
uptime_jiffies c = c.jiffies

-- (int)jiffies % 100 == 0, where the int is negative if its 32 bits are 2^31 or more.
unfoldable pub prints_dot : ℕ → Bool
prints_dot jiffies =
    let low = jiffies % 2 ^ 32 in
    if ltb low (2 ^ 31) then low % 100 == 0 else (2 ^ 32 - low) % 100 == 0

unfoldable pub kernel_tick : Clock → Clock
kernel_tick c =
    let jiffies = (c.jiffies + 1) % 2 ^ 64 in
    record { jiffies = jiffies; dots = if prints_dot jiffies then c.dots + 1 else c.dots }

-- The result and the clock then.
unfoldable pub timer_handler : Clock → ℕ × Clock
timer_handler c = (0, kernel_tick c)

module _ {ℓ} {H : Type ℓ} where
  -- A port takes a byte. A division by 0 is undefined.
  unfoldable pub set_kernel_frequency : Machine H → ℕ → Outcome (Machine H)
  set_kernel_frequency m hz =
      let divisor = 1193180 / hz in
      let m = Interrupts.outportb m 0x43 0x36 in
      let m = Interrupts.outportb m 0x40 (divisor % 2 ^ 8) in
      let m = Interrupts.outportb m 0x40 (divisor / 2 ^ 8 % 2 ^ 8) in
      if hz == 0 then undefined else ok m

  -- `handler` is timer_handler(). The frequency is X86_KERNEL_FREQ.
  unfoldable pub timer_init : Machine H → H → Outcome (ℕ × Machine H)
  timer_init m handler = do
    m ← set_kernel_frequency m 100
    ok (1, Interrupts.install_isr m (irq_isr 0) handler)

-- The clock after some ticks.
unfoldable pub after_ticks : ℕ → Clock → Clock
after_ticks zero c = c
after_ticks (suc n) c = (timer_handler (after_ticks n c)).1

abbrev pub start : Clock
start = record { jiffies = 0; dots = 0 }

ticks_once :
    (n : ℕ)
    → n + 1 < 2 ^ 31
    → kernel_tick (record { jiffies = n; dots = n / 100 })
      ≡ record { jiffies = n + 1; dots = (n + 1) / 100 }
unfolding kernel_tick prints_dot
ticks_once n lt =
    let wide : (n + 1) % 2 ^ 64 ≡ n + 1 = omega (arith, lt) in
    let low : (n + 1) % 2 ^ 32 ≡ n + 1 = omega (arith, lt) in
    let positive : ltb (n + 1) (2 ^ 31) ≡ true = ground (arith, lt) in
    elim (Bool-cases ((n + 1) % 100 == 0)) [
      | inl dot ↦
          let count : n / 100 + 1 ≡ (n + 1) / 100 = ground (arith, dot) in
          rw (wide, low, positive, dot, count) refl
      | inr no_dot ↦
          let count : n / 100 ≡ (n + 1) / 100 = ground (arith, no_dot) in
          rw (wide, low, positive, no_dot, count) refl
    ]

clock_is : (n : ℕ) → n < 2 ^ 31 → after_ticks n start ≡ record { jiffies = n; dots = n / 100 }
unfolding after_ticks timer_handler
clock_is zero lt = refl
clock_is (suc n) lt =
    let count : n + 1 ≡ suc n = omega arith in
    rw (clock_is n (omega (arith, lt)), ← count) (ticks_once n (omega (arith, lt)))

-- After fewer than 2^31 ticks of the timer from the start: uptime_jiffies() is their number, and "."
-- was printed once for each 100 of them.
pub after_ticks_lem :
    (n : ℕ)
    → n < 2 ^ 31
    → (uptime_jiffies (after_ticks n start) ≡ n) × ((after_ticks n start).dots ≡ n / 100)
unfolding uptime_jiffies
after_ticks_lem n lt = let e = clock_is n lt in rw e (refl, refl)
