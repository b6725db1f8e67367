-- ===== src/State/Connection.antt =====
-- The connection-scoped methods of src/hfp_mcp/state.py.
use hermes_phone_hfp.Prelude.{
  ℕ, suc, String, Bool, true, false, not, Option, none, some, [], ◌==◌, if◌then◌else◌,
}
use hermes_phone_hfp.Prelude.Dict.{insert, string_eq}
use hermes_phone_hfp.State.Types.{
  ConnectionState, Reading, Connection, no_call, no_audio, HfpState, publish,
}

-- `generation is not None and generation != self.connection_generation`
abbrev pub stale : Option ℕ → ℕ → Bool
stale none current = false
stale (some g) current = not (g == current)

unfoldable pub set_connecting : Reading → String → HfpState → HfpState × ℕ
unfolding publish
set_connecting r address s =
    let generation = suc s.connection.connection_generation in
    let connection = record s.connection {
      connection_generation = generation;
      connected_address = some address;
      connection_state = ConnectionState.connecting;
    } in
    (publish r (record s { connection = connection }), generation)

abbrev or_kept {ℓ} : {A : Type ℓ} → Option A → Option A → Option A
or_kept none old = old
or_kept (some x) old = some x

unfoldable pub set_connected :
    Reading → String → ℕ → Option String → Option String → HfpState → HfpState × ℕ
unfolding publish insert
set_connected r address sock adapter_address device_name s =
    let generation = suc s.connection.connection_generation in
    let connection : Connection = record {
      connection_generation = generation;
      connected_address = some address;
      connected_name = device_name;
      adapter_address = or_kept adapter_address s.connection.adapter_address;
      rfcomm_socket = some sock;
      connection_state = ConnectionState.handshaking;
    } in
    (
      publish r
          (record s { connection = connection; health = insert "rfcomm" "starting" s.health }),
      generation,
    )

unfoldable pub set_handshake_complete : Reading → Option ℕ → HfpState → HfpState × Bool
unfolding publish
set_handshake_complete r generation s =
    if stale generation s.connection.connection_generation then (s, false) else (
      publish r (record s {
        connection = record s.connection { connection_state = ConnectionState.connected };
        health = insert "rfcomm" "ok" (insert "bluez" "ok" s.health);
      }),
      true,
    )

-- Everything but the adapter's address and the two generations is reset.
unfoldable pub set_disconnected : Reading → Option ℕ → HfpState → HfpState × Bool
unfolding publish
set_disconnected r generation s =
    if stale generation s.connection.connection_generation then (s, false) else (
      publish r (record s {
        connection = record s.connection {
          connection_state = ConnectionState.disconnected;
          connected_address = none;
          connected_name = none;
          rfcomm_socket = none;
        };
        call = record no_call { call_generation = s.call.call_generation };
        audio = no_audio;
        indicators = [];
        health = insert "sco" "stopped" (insert "rfcomm" "stopped" s.health);
      }),
      true,
    )
