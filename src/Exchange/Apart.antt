-- ===== src/Exchange/Apart.antt =====
-- The calculator and the dispatcher do not work on one buffer (service/overseer.cpp,
-- service/rating_calculator.cpp).
use iqoption_test_task.Prelude.{
  ℕ, ◌≡◌, ◌≢◌, refl, sym, subst, ◌∙◌, Bool, true, false, not, arith, if◌then◌else◌,
}
use iqoption_test_task.Exchange.{
  Dispatching, writes_to, loaded, released, Calculating, idle, waits_for, processes, ExchangeState,
  add_writer, remove_writer, Step, load_current, release, claim, exchange, proceed, finish, Run,
  begun, continued,
}

-- The dispatching thread is not between its load of `currentBuffer` and its claim of what it loaded.
abbrev pub Claimed : Dispatching → Type 0
Claimed (writes_to b) = Unit {0}
Claimed (loaded b n) = ⊥
Claimed (released n) = ⊥

-- The recalculating thread takes a buffer only while the other thread is not between its load and its
-- claim: a minute lies between two exchanges, a few instructions between the load and the claim.
abbrev pub PromptStep : {s s' : ExchangeState} → Step s s' → Type 0
PromptStep (exchange s e) = Claimed s.dispatching
PromptStep (load_current s b e ne) = Unit {0}
PromptStep (release s b n e) = Unit {0}
PromptStep (claim s n e) = Unit {0}
PromptStep (proceed s b e z) = Unit {0}
PromptStep (finish s b e) = Unit {0}

abbrev pub Prompt : {s : ExchangeState} → Run s → Type 0
Prompt begun = Unit {0}
Prompt (continued r s) = Prompt r × PromptStep s

-- What the counters say of the dispatching thread.
abbrev Counted : Dispatching → Bool → ℕ → ℕ → Type 0
Counted (writes_to false) cur f s = (f ≡ 1) × (s ≡ 0)
Counted (writes_to true) cur f s = (f ≡ 0) × (s ≡ 1)
Counted (loaded false n) cur f s = (n ≡ true) × (cur ≡ true) × (f ≡ 1) × (s ≡ 0)
Counted (loaded true n) cur f s = (n ≡ false) × (cur ≡ false) × (f ≡ 0) × (s ≡ 1)
Counted (released n) cur f s = (n ≡ cur) × (f ≡ 0) × (s ≡ 0)

-- The buffer that the calculator processes is not the one that is claimed, or about to be.
abbrev Away : Calculating → Dispatching → Bool → Type 0
Away idle d cur = Unit {0}
Away (waits_for b) d cur = b ≢ cur
Away (processes b) (writes_to n) cur = (b ≢ cur) × (n ≡ cur)
Away (processes b) (loaded o n) cur = ⊥
Away (processes b) (released n) cur = (b ≢ cur)

record Invariant (s : ExchangeState) : Type 0 where
  counted : Counted s.dispatching s.current_buffer s.writers_first s.writers_second
  away : Away s.calculating s.dispatching s.current_buffer

load-Away :
    (c : Calculating) (b cur : Bool)
    → b ≢ cur
    → Away c (writes_to b) cur
    → Away c (loaded b cur) cur
load-Away idle b cur ne a = tt
load-Away (waits_for x) b cur ne a = a
load-Away (processes x) b cur ne a = ne a.1

load-Counted :
    (b cur : Bool) (f g : ℕ)
    → b ≢ cur
    → Counted (writes_to b) cur f g
    → Counted (loaded b cur) cur f g
load-Counted false false f g ne c = absurd (ne refl)
load-Counted false true f g ne c = (refl, refl, c.0, c.1)
load-Counted true false f g ne c = (refl, refl, c.0, c.1)
load-Counted true true f g ne c = absurd (ne refl)

release-Away :
    (c : Calculating) (b n cur : Bool) → Away c (loaded b n) cur → Away c (released n) cur
release-Away idle b n cur a = tt
release-Away (waits_for x) b n cur a = a
release-Away (processes x) b n cur a = absurd a

release_step :
    (s : ExchangeState) (b n : Bool)
    → Counted (loaded b n) s.current_buffer s.writers_first s.writers_second
    → Away s.calculating (loaded b n) s.current_buffer
    → Invariant (record (remove_writer b s) { dispatching = released n })
release_step s false n c a = record {
  counted = (c.0 ∙ sym c.1, omega (arith, c.2), c.3);
  away = release-Away s.calculating false n s.current_buffer a;
}
release_step s true n c a = record {
  counted = (c.0 ∙ sym c.1, c.2, omega (arith, c.3));
  away = release-Away s.calculating true n s.current_buffer a;
}

claim-Away :
    (c : Calculating) (n cur : Bool) → n ≡ cur → Away c (released n) cur → Away c (writes_to n) cur
claim-Away idle n cur e a = tt
claim-Away (waits_for x) n cur e a = a
claim-Away (processes x) n cur e a = (a, e)

claim_step :
    (s : ExchangeState) (n : Bool)
    → Counted (released n) s.current_buffer s.writers_first s.writers_second
    → Away s.calculating (released n) s.current_buffer
    → Invariant (record (add_writer n s) { dispatching = writes_to n })
claim_step s false c a = record {
  counted = (omega (arith, c.1), c.2);
  away = claim-Away s.calculating false s.current_buffer c.0 a;
}
claim_step s true c a = record {
  counted = (c.1, omega (arith, c.2));
  away = claim-Away s.calculating true s.current_buffer c.0 a;
}

not_same : (b : Bool) → b ≢ not b
not_same false e = cc
not_same true e = cc

exchange-Counted :
    (d : Dispatching) (cur : Bool) (f g : ℕ)
    → Claimed d
    → Counted d cur f g
    → Counted d (not cur) f g
exchange-Counted (writes_to false) cur f g p c = c
exchange-Counted (writes_to true) cur f g p c = c
exchange-Counted (loaded b n) cur f g p c = absurd p
exchange-Counted (released n) cur f g p c = absurd p

-- No writer is left at the buffer that the calculator took.
proceed-Away :
    (d : Dispatching) (b cur : Bool) (f g : ℕ)
    → Counted d cur f g
    → b ≢ cur
    → (if b then g else f) ≡ 0
    → Away (processes b) d cur
proceed-Away (writes_to false) false cur f g c ne z = absurd (omega (arith, c.0, z))
proceed-Away (writes_to false) true true f g c ne z = absurd (ne refl)
proceed-Away (writes_to false) true false f g c ne z = (ne, refl)
proceed-Away (writes_to true) true cur f g c ne z = absurd (omega (arith, c.1, z))
proceed-Away (writes_to true) false false f g c ne z = absurd (ne refl)
proceed-Away (writes_to true) false true f g c ne z = (ne, refl)
proceed-Away (loaded false n) false cur f g c ne z = omega (arith, c.2, z)
proceed-Away (loaded false n) true cur f g c ne z = ne (sym c.1)
proceed-Away (loaded true n) true cur f g c ne z = omega (arith, c.3, z)
proceed-Away (loaded true n) false cur f g c ne z = ne (sym c.1)
proceed-Away (released n) b cur f g c ne z = ne

module _ (s : ExchangeState) (v : Invariant s) where
  Counted-at :
      (d : Dispatching)
      → s.dispatching ≡ d
      → Counted d s.current_buffer s.writers_first s.writers_second
  Counted-at d e =
      subst (λ x. Counted x s.current_buffer s.writers_first s.writers_second) e v.counted

  Away-at : (d : Dispatching) → s.dispatching ≡ d → Away s.calculating d s.current_buffer
  Away-at d e = subst (λ x. Away s.calculating x s.current_buffer) e v.away

Step-Invariant : {s s' : ExchangeState} (t : Step s s') → PromptStep t → Invariant s → Invariant s'
Step-Invariant (load_current s b e ne) p v = record {
  counted =
      load-Counted b s.current_buffer s.writers_first s.writers_second ne
        (Counted-at s v (writes_to b) e);
  away = load-Away s.calculating b s.current_buffer ne (Away-at s v (writes_to b) e);
}
Step-Invariant (release s b n e) p v =
    release_step s b n (Counted-at s v (loaded b n) e) (Away-at s v (loaded b n) e)
Step-Invariant (claim s n e) p v =
    claim_step s n (Counted-at s v (released n) e) (Away-at s v (released n) e)
Step-Invariant (exchange s e) p v = record {
  counted =
      exchange-Counted s.dispatching s.current_buffer s.writers_first s.writers_second p v.counted;
  away = not_same s.current_buffer;
}
Step-Invariant (proceed s b e z) p v = record {
  counted = v.counted;
  away =
      proceed-Away s.dispatching b s.current_buffer s.writers_first s.writers_second v.counted
        (subst (λ c. Away c s.dispatching s.current_buffer) e v.away) z;
}
Step-Invariant (finish s b e) p v = record { counted = v.counted; away = tt }

run-Invariant : {s : ExchangeState} (r : Run s) → Prompt r → Invariant s
run-Invariant begun p = record { counted = (refl, refl); away = tt }
run-Invariant (continued r t) p = Step-Invariant t p.1 (run-Invariant r p.0)

-- However the steps of the two threads interleave, if the recalculating thread takes a buffer only
-- while the other is not between its load of `currentBuffer` and its claim of what it loaded, then it
-- never processes the buffer that the other may write to.
pub run-apart :
    (s : ExchangeState) (r : Run s) (b n : Bool)
    → Prompt r
    → s.calculating ≡ processes b
    → s.dispatching ≡ writes_to n
    → b ≢ n
run-apart s r b n p c d =
    let v = run-Invariant r p in
    let apart : Away (processes b) (writes_to n) s.current_buffer =
      subst (λ x. Away x (writes_to n) s.current_buffer) c (Away-at s v (writes_to n) d) in
    λ e. apart.0 (e ∙ apart.1)
