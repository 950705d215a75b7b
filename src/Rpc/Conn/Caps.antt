-- ===== src/Rpc/Conn/Caps.antt =====
-- The capabilities of messages in src/rpc/conn.ts: descriptors that come in become clients, and
-- clients become descriptors that go out.
use capnp_es.Prelude.{
  ℕ, zero, suc, ◌+◌, if◌then◌else◌, Bool, true, false, List, [], ◌∷◌, get_elem?, Option, none, some,
  lookup,
}
use capnp_es.Rpc.Conn.Wire.{
  unknown_answer_id, unknown_cap_descriptor, unknown_export_id, protocol, out_of_hops,
  promised_answer_ops_to_transform, transform_to_promised_answer, CapDescriptor, no_cap,
  sender_hosted, sender_promise, receiver_hosted, receiver_answer, unknown_descriptor, release,
}
use capnp_es.Rpc.Conn.State.{
  Client, server, import_client, ref_client, answer_client, error_client, pipeline_client, Shared,
  Question, Export, ImportClient, Outcome, throw, done_with, Action, ◌>>=◌, pure, raise, catch,
  send_message,
}
use capnp_es.Rpc.Conn.Questions.{is_in_progress, client_from_resolution}
use capnp_es.Rpc.Conn.Exports.{find_export, add_export, new_ref_to}
use capnp_es.Rpc.Conn.Imports.{add_import}

-- `answerPipelineClient`
abbrev pub answer_pipeline_client : ℕ → List ℕ → Action Client
answer_pipeline_client a t c =
    (done_with (answer_client c.serial a t), record c { serial = c.serial + 1 })

-- The error that `ref` throws becomes a protocol error.
unfoldable pub export_client : Option Export → Action Client
unfolding new_ref_to
export_client none = raise (protocol unknown_export_id)
export_client (some e) = catch (new_ref_to e.rc) (λ _. raise (protocol unknown_export_id))

unfoldable pub answer_client_of : Option ℕ → List ℕ → Action Client
answer_client_of none t = raise (protocol unknown_answer_id)
answer_client_of (some a) t = answer_pipeline_client a t

-- `Conn.clientFromCapDescriptor`
unfoldable pub client_from_cap_descriptor : CapDescriptor → Action Client
unfolding export_client answer_client_of add_import
client_from_cap_descriptor (sender_hosted id) c = add_import id false c
client_from_cap_descriptor (sender_promise id) c = add_import id true c
client_from_cap_descriptor (receiver_hosted id) c = export_client (find_export id c) c
client_from_cap_descriptor (receiver_answer id ops) c =
    answer_client_of (lookup id c.answers) (promised_answer_ops_to_transform ops) c
client_from_cap_descriptor no_cap c = (throw (protocol unknown_cap_descriptor), c)
client_from_cap_descriptor unknown_descriptor c = (throw (protocol unknown_cap_descriptor), c)

-- What one descriptor of a payload adds to the message's table of capabilities. The code of the
-- other cases is that of `clientFromCapDescriptor`, word for word.
unfoldable pub cap_of : CapDescriptor → Action (Option Client)
unfolding client_from_cap_descriptor
cap_of no_cap = pure none
cap_of (sender_hosted id) = client_from_cap_descriptor (sender_hosted id) >>= λ k. pure (some k)
cap_of (sender_promise id) = client_from_cap_descriptor (sender_promise id) >>= λ k. pure (some k)
cap_of (receiver_hosted id) = client_from_cap_descriptor (receiver_hosted id) >>= λ k. pure (some k)
cap_of (receiver_answer id ops) =
    client_from_cap_descriptor (receiver_answer id ops) >>= λ k. pure (some k)
cap_of unknown_descriptor = raise (protocol unknown_cap_descriptor)

-- `Conn.populateMessageCapTable`: the clients that are added, in order.
unfoldable pub populate_message_cap_table : List CapDescriptor → Action (List (Option Client))
unfolding cap_of
populate_message_cap_table [] = pure []
populate_message_cap_table (desc ∷ table) =
    cap_of desc >>= λ k. populate_message_cap_table table >>= λ ks. pure (k ∷ ks)

unfoldable pub known_export : Option Export → Action (Unit {0})
known_export none = raise (protocol unknown_export_id)
known_export (some e) = pure tt

unfoldable pub known_answer : Option ℕ → Action (Unit {0})
known_answer none = raise (protocol unknown_answer_id)
known_answer (some a) = pure tt

-- `Conn.discardResolvedCap`
unfoldable pub discard_resolved_cap : CapDescriptor → Action (Unit {0})
unfolding known_export known_answer
discard_resolved_cap (sender_hosted id) c = (done_with tt, send_message (release id 1) c)
discard_resolved_cap (sender_promise id) c = (done_with tt, send_message (release id 1) c)
discard_resolved_cap (receiver_hosted id) c = known_export (find_export id c) c
discard_resolved_cap (receiver_answer id ops) c = known_answer (lookup id c.answers) c
discard_resolved_cap no_cap c = (throw (protocol unknown_cap_descriptor), c)
discard_resolved_cap unknown_descriptor c = (throw (protocol unknown_cap_descriptor), c)

-- `Conn.capDescriptorNeedsSenderLoopback`
abbrev pub cap_descriptor_needs_sender_loopback : CapDescriptor → Bool
cap_descriptor_needs_sender_loopback no_cap = false
cap_descriptor_needs_sender_loopback (sender_hosted _) = false
cap_descriptor_needs_sender_loopback (sender_promise _) = false
cap_descriptor_needs_sender_loopback (receiver_hosted _) = true
cap_descriptor_needs_sender_loopback (receiver_answer _ _) = true
cap_descriptor_needs_sender_loopback unknown_descriptor = false

-- Where the loop `dig` ends: at an import of this connection, at a question in progress, or at
-- neither.
pub data Dug : Type 0 where
  at_import : ℕ → Dug
  at_question : ℕ → List ℕ → Dug
  elsewhere : Dug

-- The next round of the loop, or its end.
pub data Round : Type 0 where
  stop : Dug → Round
  again : Client → Round

unfoldable pub dig_import : Option ImportClient → Action Round
dig_import none = pure (stop elsewhere)
dig_import (some i) = pure (stop (at_import i.id))

unfoldable pub dig_shared : Option Shared → Action Round
dig_shared none = pure (stop elsewhere)
dig_shared (some s) = pure (again s.client)

-- What follows a round, by what continues the loop.
unfoldable pub dig_on : (Client → Action Dug) → Round → Action Dug
dig_on next (stop d) = pure d
dig_on next (again k) = next k

unfoldable pub descriptor_of : Client → Dug → Action CapDescriptor
descriptor_of client (at_import id) c = (done_with (receiver_hosted id), c)
descriptor_of client (at_question id t) c =
    (done_with (receiver_answer id (transform_to_promised_answer t)), c)
descriptor_of client elsewhere c =
    let (id, c') = add_export client c in (done_with (sender_hosted id), c')

module _ (client_at : ℕ → List ℕ → Outcome Client) where
  unfoldable pub dig_question : Option Question → List ℕ → Action Round
  unfolding client_from_resolution
  dig_question none t c = (done_with (stop elsewhere), c)
  dig_question (some o) t c =
      if is_in_progress o.state
      then (done_with (stop (at_question o.id t)), c)
      else (client_from_resolution client_at t o.obj o.err >>= λ k. pure (again k)) c

  unfoldable pub dig_round : Client → Action Round
  unfolding dig_import dig_shared dig_question
  dig_round (import_client i) c = dig_import (get_elem? c.all_imports i) c
  dig_round (ref_client rc r) c = dig_shared (get_elem? c.all_counts rc) c
  dig_round (pipeline_client n q t) c = dig_question (get_elem? c.all_questions q) t c
  dig_round (server _) c = (done_with (stop elsewhere), c)
  dig_round (answer_client _ _ _) c = (done_with (stop elsewhere), c)
  dig_round (error_client _ _) c = (done_with (stop elsewhere), c)

  unfoldable pub dig : ℕ → Client → Action Dug
  unfolding dig_round dig_on
  dig zero client = raise out_of_hops
  dig (suc hops) client = dig_round client >>= dig_on (dig hops)

  -- `Conn.descriptorForClient`
  unfoldable pub descriptor_for_client : ℕ → Client → Action CapDescriptor
  unfolding dig descriptor_of
  descriptor_for_client hops client = dig hops client >>= descriptor_of client

  -- `Conn.makeCapTable`, from the clients of the message.
  unfoldable pub make_cap_table : ℕ → List (Option Client) → Action (List CapDescriptor)
  unfolding descriptor_for_client
  make_cap_table hops [] = pure []
  make_cap_table hops (none ∷ caps) = make_cap_table hops caps >>= λ ds. pure (no_cap ∷ ds)
  make_cap_table hops (some k ∷ caps) =
      descriptor_for_client hops k >>= λ d. make_cap_table hops caps >>= λ ds. pure (d ∷ ds)

-- `Conn.collectPayloadSenderHosted`
unfoldable pub collect_payload_sender_hosted : List CapDescriptor → List ℕ
collect_payload_sender_hosted [] = []
collect_payload_sender_hosted (sender_hosted id ∷ table) = id ∷ collect_payload_sender_hosted table
collect_payload_sender_hosted (no_cap ∷ table) = collect_payload_sender_hosted table
collect_payload_sender_hosted (sender_promise _ ∷ table) = collect_payload_sender_hosted table
collect_payload_sender_hosted (receiver_hosted _ ∷ table) = collect_payload_sender_hosted table
collect_payload_sender_hosted (receiver_answer _ _ ∷ table) = collect_payload_sender_hosted table
collect_payload_sender_hosted (unknown_descriptor ∷ table) = collect_payload_sender_hosted table
