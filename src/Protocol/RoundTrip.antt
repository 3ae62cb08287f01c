-- ===== src/Protocol/RoundTrip.antt =====
-- What the messages of ipc/protocol.h look like on the wire, and that `init` reads `store` back.
use iqoption_test_task.Prelude.{
  ℕ, ◌+◌, ◌^◌, ◌≤◌, ◌<◌, ◌≡◌, ◌∙◌, ap, subst, List, [], ◌++◌, length, append-nil, length-append,
  append_assoc, arith,
}
use iqoption_test_task.Failures.{ok}
use iqoption_test_task.Binary.{BinaryIStream}
use iqoption_test_task.Binary.Bytes.{to_bytes, length-to_bytes}
use iqoption_test_task.Binary.Laws.{
  ended, facing, buffer_bytes, write_pod_end, write_buffer_end, read_pod-facing, read_buffer-facing,
}
use iqoption_test_task.Protocol.Constants.{error_code, ProtocolError}
use iqoption_test_task.Protocol.Client.{
  GenericIdMsg, GenericIdNameMsg, UserDealWonMsg, UserMsg, registered, renamed, connected,
  disconnected, deal_won, init_id, store_id, init_id_name, store_id_name, init_deal_won,
  store_deal_won, store_body,
}
use iqoption_test_task.Protocol.Service.{
  GenericProtocolError, get_error_code, stored_field, made, store_error, init_error,
}

-- The values of a message fit their types: what the C++ types give for nothing.
abbrev pub IdFits : GenericIdMsg → Type 0
IdFits m = m.user_id < 2 ^ 32

abbrev pub IdNameFits : GenericIdNameMsg → Type 0
IdNameFits m = (m.user_id < 2 ^ 32) × (length m.user_name ≤ 255)

abbrev pub DealFits : UserDealWonMsg → Type 0
DealFits m = (m.user_id < 2 ^ 32) × (m.winnings < 2 ^ 64)

abbrev pub MsgFits : UserMsg → Type 0
MsgFits (registered m) = IdNameFits m
MsgFits (renamed m) = IdNameFits m
MsgFits (connected m) = IdFits m
MsgFits (disconnected m) = IdFits m
MsgFits (deal_won m) = DealFits m

abbrev pub id_bytes : GenericIdMsg → List ℕ
id_bytes m = to_bytes 4 m.user_id

abbrev pub id_name_bytes : GenericIdNameMsg → List ℕ
id_name_bytes m = to_bytes 4 m.user_id ++ buffer_bytes m.user_name

abbrev pub deal_bytes : UserDealWonMsg → List ℕ
deal_bytes m = to_bytes 4 m.user_id ++ to_bytes 8 m.winnings

abbrev pub body_bytes : UserMsg → List ℕ
body_bytes (registered m) = id_name_bytes m
body_bytes (renamed m) = id_name_bytes m
body_bytes (connected m) = id_bytes m
body_bytes (disconnected m) = id_bytes m
body_bytes (deal_won m) = deal_bytes m

store_id_name_end :
    (m : GenericIdNameMsg) (xs : List ℕ)
    → IdNameFits m
    → store_id_name m (ended xs) ≡ ok (ended (xs ++ id_name_bytes m))
unfolding store_id_name
store_id_name_end m xs h = rw (
  write_pod_end 4 m.user_id xs,
  write_buffer_end m.user_name (xs ++ to_bytes 4 m.user_id) h.1,
  append_assoc xs (to_bytes 4 m.user_id) (buffer_bytes m.user_name),
)

store_deal_won_end :
    (m : UserDealWonMsg) (xs : List ℕ) → store_deal_won m (ended xs) ≡ ended (xs ++ deal_bytes m)
unfolding store_deal_won
store_deal_won_end m xs = rw (
  write_pod_end 4 m.user_id xs,
  write_pod_end 8 m.winnings (xs ++ to_bytes 4 m.user_id),
  append_assoc xs (to_bytes 4 m.user_id) (to_bytes 8 m.winnings),
)

pub store_body_end :
    (m : UserMsg) (xs : List ℕ)
    → MsgFits m
    → store_body m (ended xs) ≡ ok (ended (xs ++ body_bytes m))
unfolding store_body store_id
store_body_end (registered m) xs h = store_id_name_end m xs h
store_body_end (renamed m) xs h = store_id_name_end m xs h
store_body_end (connected m) xs h = rw (write_pod_end 4 m.user_id xs)
store_body_end (disconnected m) xs h = rw (write_pod_end 4 m.user_id xs)
store_body_end (deal_won m) xs h = rw (store_deal_won_end m xs)

pub init_id-facing :
    (m : GenericIdMsg) (pre rest : List ℕ)
    → IdFits m
    → init_id (facing pre (id_bytes m ++ rest)) ≡ ok (m, facing (pre ++ id_bytes m) rest)
unfolding init_id
init_id-facing m pre rest h = rw (read_pod-facing 4 m.user_id pre rest (omega arith))

pub init_id_name-facing :
    (m : GenericIdNameMsg) (pre rest : List ℕ)
    → IdNameFits m
    → init_id_name (facing pre (id_name_bytes m ++ rest))
      ≡ ok (m, facing (pre ++ id_name_bytes m) rest)
unfolding init_id_name
init_id_name-facing m pre rest h =
    let i = to_bytes 4 m.user_id in
    let n = buffer_bytes m.user_name in
    rw (
      append_assoc i n rest,
      read_pod-facing 4 m.user_id pre (n ++ rest) (omega arith),
      read_buffer-facing (pre ++ i) m.user_name rest h.1,
      append_assoc pre i n,
    )

pub init_deal_won-facing :
    (m : UserDealWonMsg) (pre rest : List ℕ)
    → DealFits m
    → init_deal_won (facing pre (deal_bytes m ++ rest)) ≡ ok (m, facing (pre ++ deal_bytes m) rest)
unfolding init_deal_won
init_deal_won-facing m pre rest h =
    let i = to_bytes 4 m.user_id in
    let w = to_bytes 8 m.winnings in
    rw (
      append_assoc i w rest,
      read_pod-facing 4 m.user_id pre (w ++ rest) (omega arith),
      read_pod-facing 8 m.winnings (pre ++ i) rest (omega arith),
      append_assoc pre i w,
    )

-- The error that a client makes of what was stored: the version error carries this build's version.
abbrev pub received : GenericProtocolError → GenericProtocolError
received e = made (get_error_code e) (stored_field e)

pub store_error_end :
    (e : GenericProtocolError) (xs : List ℕ)
    → store_error e (ended xs)
      ≡ ended (xs ++ (to_bytes 4 (error_code (get_error_code e)) ++ to_bytes 4 (stored_field e)))
unfolding store_error
store_error_end e xs =
    let c = error_code (get_error_code e) in
    rw (
      write_pod_end 4 c xs,
      write_pod_end 4 (stored_field e) (xs ++ to_bytes 4 c),
      append_assoc xs (to_bytes 4 c) (to_bytes 4 (stored_field e)),
    )

pub init_error-facing :
    (c : ProtocolError) (v : ℕ) (pre rest : List ℕ)
    → v < 2 ^ 32
    → init_error c (facing pre (to_bytes 4 v ++ rest))
      ≡ ok (made c v, facing (pre ++ to_bytes 4 v) rest)
unfolding init_error
init_error-facing c v pre rest h = rw (read_pod-facing 4 v pre rest (omega arith))

-- An error that was stored is read back: behind its code there is the field of its class.
pub init_error-store_error :
    (e : GenericProtocolError) (xs : List ℕ)
    → stored_field e < 2 ^ 32
    → init_error
        (get_error_code e)
        (record { cur_pos = length xs + 4; storage = (store_error e (ended xs)).storage })
      ≡ ok (
        received e,
        record {
          cur_pos = (store_error e (ended xs)).cur_pos;
          storage = (store_error e (ended xs)).storage;
        },
      )
init_error-store_error e xs h =
    let c = get_error_code e in
    let code = to_bytes 4 (error_code c) in
    let field = to_bytes 4 (stored_field e) in
    let pos : length xs + 4 ≡ length (xs ++ code) =
      omega (arith, length-append xs code, length-to_bytes 4 (error_code c)) in
    rw (store_error_end e xs, pos, ← append_assoc xs code field)
      (subst
        (λ b.
          init_error c (facing (xs ++ code) b) ≡ ok (received e, ended_in ((xs ++ code) ++ field)))
        (append-nil field)
        (init_error-facing c (stored_field e) (xs ++ code) [] h
          ∙ ap
              (λ st.
                ok (received e, record { cur_pos = length ((xs ++ code) ++ field); storage = st }))
              (append-nil ((xs ++ code) ++ field))))
  where
    ended_in : List ℕ → BinaryIStream
    ended_in ys = record { cur_pos = length ys; storage = ys }
