-- ===== src/Strategy/Minute.antt =====
-- test/strategy.cpp: the requests of a minute are spread over its seconds, made into messages and sent.
-- The products with the rates of the configuration, which are of type `double`, are a parameter; so are
-- the numbers drawn. Clocks and sleeps are left out.
use iqoption_test_task.Prelude.{
  ℕ, zero, suc, ◌-◌, Bool, List, [], ◌∷◌, ◌++◌, replicate, get_or, set, if◌then◌else◌,
}
use iqoption_test_task.Failures.{Result, ok, ◌>>=◌}
use iqoption_test_task.Binary.{BinaryOStream, rewind}
use iqoption_test_task.Protocol.Constants.{size_of_message_size}
use iqoption_test_task.Protocol.Client.{UserMsg, code_of, prefix, store_body}
use iqoption_test_task.Transport.{Asio, write_message}
use iqoption_test_task.Storage.{Impl}
use iqoption_test_task.Storage.Methods.{get_user_group_size}
use iqoption_test_task.Storage.Pick.{anyone, connected_any, disconnected_any}
use iqoption_test_task.Storage.Reference.{set_next_minute_data}
use iqoption_test_task.Strategy.{
  MessageCode, user_registered, user_renamed, user_connected, user_disconnected, user_deal_won,
  fake_user, Chance, Strategy, register_user, perform,
}

-- MessageMinuteMap: the requests of each of 60 seconds.
abbrev pub MessageMinuteMap : Type 0
MessageMinuteMap = List (List MessageCode)

abbrev pub empty_minute : MessageMinuteMap
empty_minute = replicate 60 []

-- distrib[second].emplace_back
abbrev pub emplace_back : MessageCode → ℕ → MessageMinuteMap → MessageMinuteMap
emplace_back code second m = set m second (get_or m second [] ++ (code ∷ []))

-- `count` requests, the i-th at the second that is drawn for it.
unfoldable pub add_requests : MessageCode → (ℕ → ℕ) → ℕ → MessageMinuteMap → MessageMinuteMap
add_requests code seconds zero m = m
add_requests code seconds (suc i) m = emplace_back code (seconds i) (add_requests code seconds i m)

-- Whose number the count of a kind of requests depends on.
abbrev pub eligible : MessageCode → ℕ
eligible user_registered = anyone
eligible user_renamed = anyone
eligible user_connected = disconnected_any
eligible user_disconnected = connected_any
eligible user_deal_won = connected_any
eligible fake_user = anyone

-- The numbers that a minute starts with: `portion code n left` is n * rate * left / 60 as an `int`.
pub record Plan : Type 0 where
  pub portion : MessageCode → ℕ → ℕ → ℕ
  pub seconds : MessageCode → ℕ → ℕ

abbrev pub count_of : Plan → ℕ → Impl → MessageCode → Result ℕ
count_of plan current_second s code = do
  size ← get_user_group_size (eligible code) s
  ok (plan.portion code size (60 - current_second))

abbrev pub spread : Plan → ℕ → Impl → MessageCode → MessageMinuteMap → Result MessageMinuteMap
spread plan current_second s code m = do
  count ← count_of plan current_second s code
  ok (add_requests code (plan.seconds code) count m)

unfoldable pub generate_new_distribution : Plan → ℕ → Impl → Result MessageMinuteMap
generate_new_distribution plan second s = do
  m₁ ← spread plan second s user_registered empty_minute
  m₂ ← spread plan second s user_renamed m₁
  m₃ ← spread plan second s user_connected m₂
  m₄ ← spread plan second s user_disconnected m₃
  m₅ ← spread plan second s user_deal_won m₄
  spread plan second s fake_user m₅

-- A message in the buffer that is used again and again, and on the socket.
unfoldable pub send_request :
    (a : Asio) → UserMsg → BinaryOStream → a.Socket → Result (BinaryOStream × a.Socket)
send_request a m buffer socket = do
  stored ← store_body m (prefix (code_of m) (rewind size_of_message_size buffer).1)
  write_message a stored socket

pub record Session (a : Asio) : Type 0 where
  pub strategy : Strategy
  pub buffer : BinaryOStream
  pub socket : a.Socket

abbrev pub sent : (a : Asio) → UserMsg × Strategy → BinaryOStream → a.Socket → Result (Session a)
sent a (m, c) buffer socket = do
  (buffer', socket') ← send_request a m buffer socket
  ok (record { strategy = c; buffer = buffer'; socket = socket' })

-- The initial registration.
unfoldable pub register_users : (a : Asio) → List Chance → Session a → Result (Session a)
register_users a [] x = ok x
register_users a (r ∷ rs) x = do
  x' ← sent a (register_user r x.strategy) x.buffer x.socket
  register_users a rs x'

-- The requests of a second.
unfoldable pub perform_all :
    (a : Asio) → ℕ → (ℕ → Chance) → List MessageCode → Session a → Result (Session a)
perform_all a second chances [] x = ok x
perform_all a second chances (code ∷ codes) x = do
  done ← perform code second (chances 0) x.strategy
  x' ← sent a done x.buffer x.socket
  perform_all a second (λ i. chances (suc i)) codes x'

-- The loop over the seconds that are left; `bad_flag` is what is read before each.
unfoldable pub run_seconds :
    (a : Asio)
    → (ℕ → ℕ → Chance)
    → (bad_flag : ℕ → Bool) → MessageMinuteMap
    → ℕ
    → ℕ
    → Session a
    → Result (Session a)
run_seconds a chances bad_flag m zero second x = ok x
run_seconds a chances bad_flag m (suc left) second x =
    let rest = (do
      x' ← perform_all a second (chances second) (get_or m second []) x
      run_seconds a chances bad_flag m left (suc second) x') in
    if bad_flag second then ok x else rest

-- The storage of the previous minute takes over the present one.
unfoldable pub next_minute : Strategy → Strategy
next_minute c = record c { prev_min_data = set_next_minute_data c.cur_min_data c.prev_min_data }

-- A turn of the loop of `run`, if the flag is not set at its end.
unfoldable pub run_minute :
    (a : Asio)
    → Plan
    → (ℕ → ℕ → Chance)
    → (bad_flag : ℕ → Bool) → ℕ
    → Session a
    → Result (Session a)
run_minute a plan chances bad_flag second x = do
  m ← generate_new_distribution plan second x.strategy.cur_min_data
  x' ← run_seconds a chances bad_flag m (60 - second) second x
  ok (if bad_flag 60 then x' else record x' { strategy = next_minute x'.strategy })
