-- ===== src/Dispatcher/Tests.antt =====
-- A dispatcher of two transports and a timer, one receiver beside the default one.
use pysnmp.Base.{List, [], arith, false, none, refl, some, true, ℕ, ◌↔◌, ◌∷◌, ◌≡◌}
use pysnmp.Base.Eq.{nat_eq, option_eq}
use pysnmp.Base.Dict.{contains, insert, lookup, remove}
use pysnmp.Dispatcher.{
  Dispatcher, carrier_error, cb_fun, close_dispatcher, close_each, done, init, register_recv_cb_fun,
  register_timer_cb_fun, register_transport, unregister_error_cb_fun, unregister_recv_cb_fun,
  unregister_timer_cb_fun, unregister_transport,
}
use pysnmp.Dispatcher.Wiring.{
  IsWired, Reachable, Reachable-IsWired, after, receives, registers, start, ticks,
}
use pysnmp.Dispatcher.Close.{close_dispatcher_lem}
use pysnmp.Dispatcher.Jobs.{
  Fits, JobEvent, Jobs, final, finished, jobs_are_pending, jobs_are_pending_lem, run, started,
}

abbrev D : Type 0
D = Dispatcher ℕ ℕ

abbrev two : D
two = record {
  transports = (1, 11) ∷ (2, 12) ∷ [];
  domain_map = (11, 1) ∷ (12, 2) ∷ [];
  attached = (11, true) ∷ (12, true) ∷ [];
  error_attached = (11, true) ∷ (12, true) ∷ [];
  recv_callables = (some 5, 105) ∷ [];
  error_callables = [];
  timer_callables = 9 ∷ [];
  routing = none;
}

first_registers :
    register_transport {A = ℕ} {M = ℕ} 1 11 init
    ≡ done (record init {
      transports = (1, 11) ∷ [];
      domain_map = (11, 1) ∷ [];
      attached = (11, true) ∷ [];
      error_attached = (11, true) ∷ [];
    })
unfolding register_transport lookup insert
first_registers = refl

abbrev one : D
one = record init {
  transports = (1, 11) ∷ [];
  domain_map = (11, 1) ∷ [];
  attached = (11, true) ∷ [];
  error_attached = (11, true) ∷ [];
}

second_registers :
    register_transport 2 12 one ≡ done (record two { recv_callables = []; timer_callables = [] })
unfolding register_transport lookup insert
second_registers = refl

receiver_registers :
    register_recv_cb_fun 105 (some 5) (record two { recv_callables = []; timer_callables = [] })
    ≡ done (record two { timer_callables = [] })
unfolding register_recv_cb_fun lookup insert
receiver_registers = refl

two-Reachable : Reachable two
unfolding register_timer_cb_fun
two-Reachable =
    after
      (after
        (after (after start (registers 1 11 first_registers)) (registers 2 12 second_registers))
        (receives 105 (some 5) receiver_registers))
      (ticks 9)

-- The transport of domain 2 cannot be registered again under another domain.
busy_transport : register_transport 3 12 two ≡ carrier_error
unfolding register_transport lookup
busy_transport = refl

Reachable-IsWired_example : IsWired two
Reachable-IsWired_example = Reachable-IsWired two-Reachable

domain_two : lookup 2 two.transports ≡ some 12
unfolding lookup
domain_two = refl

close_dispatcher_lem_example :
    (s' : D) × (close_dispatcher two ≡ done s')
    × (s'.transports ≡ [])
    × ((d t : ℕ) → lookup d two.transports ≡ some t → contains t s'.attached ≡ false)
    × ((t address message : ℕ) → cb_fun t address message s' ≡ carrier_error)
    × (s'.recv_callables ≡ remove none two.recv_callables)
    × (s'.error_callables ≡ remove none two.error_callables)
    × (s'.timer_callables ≡ [])
    × (s'.routing ≡ two.routing)
close_dispatcher_lem_example = close_dispatcher_lem two two-Reachable

-- The receiver of the identifier 5 is still there after closing.
receiver_stays :
    (s' : D) × (close_dispatcher two ≡ done s') × (s'.recv_callables ≡ (some 5, 105) ∷ [])
unfolding close_dispatcher close_each unregister_transport unregister_recv_cb_fun
    unregister_error_cb_fun unregister_timer_cb_fun lookup remove
receiver_stays = (_, refl, refl)

abbrev events : List JobEvent
events = started 4 2 ∷ finished 4 1 ∷ []

events-Fits : Fits events (λ j. 0)
events-Fits = (omega arith, (omega arith, omega arith, tt))

jobs_are_pending_lem_example :
    (jobs : Jobs) × (run events [] ≡ some jobs)
    × ((jobs_are_pending jobs ≡ false) ↔ ((j : ℕ) → final events (λ i. 0) j ≡ 0))
jobs_are_pending_lem_example = jobs_are_pending_lem events events-Fits
