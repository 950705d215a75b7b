-- ===== src/Serialization/Root.antt =====
-- The root pointer of a message (src/serialization/message.ts).
use capnp_es.Prelude.{ltb, not, ◌&&◌, ◌||◌, if◌then◌else◌, Bool, none}
use capnp_es.Prelude.Int.{pos}
use capnp_es.Serialization.ObjectSize.{ObjectSize}
use capnp_es.Serialization.Context.{Act, pure, ◌>>=◌, ◌>>◌, get_segment}
use capnp_es.Serialization.Pointer.{Pointer, struct_type, default_depth_limit, new_pointer}
use capnp_es.Serialization.Pointer.Far.{get_target_struct_size}
use capnp_es.Serialization.Pointer.Lengths.{validate}
use capnp_es.Serialization.Pointer.Copy.{copy_from}
use capnp_es.Serialization.Struct.{is_read_only, init_struct}
use capnp_es.Serialization.Struct.Section.{resize}

-- `new RootStruct(m.getSegment(0), 0)`
unfoldable pub root_pointer : Act Pointer
root_pointer = do segment ← get_segment 0; new_pointer segment (pos 0) default_depth_limit

abbrev pub is_smaller : ObjectSize → ObjectSize → Bool
is_smaller a b = ltb a.data_byte_length b.data_byte_length || ltb a.pointer_length b.pointer_length

-- `getRoot`, for a struct class of this size.
unfoldable pub get_root : ObjectSize → Act Pointer
unfolding root_pointer
get_root size = do
  root ← root_pointer
  validate struct_type root none
  found ← get_target_struct_size root
  read_only ← is_read_only
  if not read_only && is_smaller found size then resize size root else pure tt
  pure root

unfoldable pub init_root : ObjectSize → Act Pointer
unfolding root_pointer
init_root size = do root ← root_pointer; init_struct size root; pure root

-- `setRoot`, for a pointer of the same message.
unfoldable pub set_root : Pointer → Act (Unit {0})
unfolding root_pointer
set_root src = do root ← root_pointer; copy_from src root
