-- ===== src/Rpc/Conn/Dispatch.antt =====
-- `dispatchMessage` and `handleMessage` of src/rpc/conn.ts.
use capnp_es.Prelude.{if◌then◌else◌}
use capnp_es.Rpc.Conn.Wire.{
  Fault, RpcMessage, unimplemented, abort, bootstrap, call_message, return_message, finish, resolve,
  release, disembargo_message, unsupported, unknown_message,
}
use capnp_es.Rpc.Conn.State.{
  throw, done_with, Action, pure, catch, modify, is_protocol, send_message,
}
use capnp_es.Rpc.Conn.Questions.{}
use capnp_es.Rpc.Conn.Exports.{release_export}
use capnp_es.Rpc.Conn.Caps.{}
use capnp_es.Rpc.Conn.Fulfill.{World}
use capnp_es.Rpc.Conn.Handlers.{handle_bootstrap, handle_finish, handle_resolve, handle_disembargo}
use capnp_es.Rpc.Conn.Returns.{handle_return}
use capnp_es.Rpc.Conn.Calls.{handle_call}
use capnp_es.Rpc.Conn.Shutdown.{shutdown, abort_for_protocol_error}

-- `Conn.dispatchMessage`
unfoldable pub dispatch_message : World → RpcMessage → Action (Unit {0})
unfolding handle_bootstrap shutdown handle_finish handle_resolve release_export handle_disembargo
    handle_return handle_call
dispatch_message w (unimplemented m) = pure tt
dispatch_message w (bootstrap id) = handle_bootstrap w id
dispatch_message w (abort e) = modify (shutdown e)
dispatch_message w (finish id release_caps) = handle_finish id release_caps
dispatch_message w (resolve id body) = handle_resolve id body
dispatch_message w (release id count) = release_export id count
dispatch_message w (disembargo_message target context) = modify (handle_disembargo target context)
dispatch_message w (unsupported kind) = modify (send_message (unimplemented (unsupported kind)))
dispatch_message w (return_message r) = handle_return r
dispatch_message w (call_message m) = handle_call w m
dispatch_message w unknown_message = pure tt

-- The `catch` of `handleMessage`.
unfoldable pub abort_if_protocol : Fault → Action (Unit {0})
unfolding abort_for_protocol_error
abort_if_protocol e c =
    if is_protocol e then (done_with tt, abort_for_protocol_error e c) else (throw e, c)

-- `Conn.handleMessage`
unfoldable pub handle_message : World → RpcMessage → Action (Unit {0})
unfolding dispatch_message abort_if_protocol
handle_message w m = catch (dispatch_message w m) abort_if_protocol
