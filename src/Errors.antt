-- ===== src/Errors.antt =====
-- src/errors.ts: the errors that the modelled code throws, and the result of code that may throw.
use capnp_es.Prelude.{Bool, true, false, ◌≡◌, refl, ◌⊎◌, inl, inr}

-- One constructor for each message that the modelled code throws, and `range_error` for the
-- RangeError of the platform's typed arrays and data views.
pub data Error : Type 0 where
  msg_invalid_frame_header : Error
  msg_pack_not_word_aligned : Error
  msg_segment_out_of_bounds : Error
  msg_segment_too_small : Error
  msg_too_many_segments : Error
  seg_id_out_of_bounds : Error
  seg_get_non_zero_single : Error
  seg_not_word_aligned : Error
  seg_replacement_buffer_too_small : Error
  seg_size_overflow : Error
  ptr_write_const_struct : Error
  ptr_depth_limit_exceeded : Error
  ptr_traversal_limit_exceeded : Error
  ptr_offset_out_of_bounds : Error
  ptr_invalid_far_target : Error
  ptr_invalid_list_size : Error
  ptr_invalid_pointer_type : Error
  ptr_wrong_pointer_type : Error
  ptr_wrong_list_type : Error
  ptr_already_adopted : Error
  ptr_init_composite_struct : Error
  ptr_struct_data_out_of_bounds : Error
  ptr_struct_pointer_out_of_bounds : Error
  ptr_composite_size_undefined : Error
  type_composite_size_undefined : Error
  rpc_null_client : Error
  rpc_zero_ref : Error
  rpc_call_queue_full : Error
  invariant_unreachable_code : Error
  -- "Fulfiller.fulfill called after settlement" and the same of `reject`
  fulfilled_after_settlement : Error
  rejected_after_settlement : Error
  range_error : Error

-- What a function that may throw gives.
pub data Result {ℓ} (A : Type ℓ) : Type ℓ where
  err : Error → Result A
  ok : A → Result A

-- `if (!test) throw thrown`
abbrev pub guard : Bool → Error → Result (Unit {0})
guard false thrown = err thrown
guard true thrown = ok tt

pub Result-cases {ℓ} :
    {A : Type ℓ} (r : Result A) → ((a : A) × (r ≡ ok a)) ⊎ ((e : Error) × (r ≡ err e))
Result-cases (err e) = inr (e, refl)
Result-cases (ok a) = inl (a, refl)

infixl 5 ◌>>=◌ ◌>>◌
-- What comes behind a call runs only if the call does not throw.
abbrev pub ◌>>=◌ {ℓ κ} : {B : Type κ} {A : Type ℓ} → Result A → (A → Result B) → Result B
err thrown >>= next = err thrown
ok value >>= next = next value

abbrev pub ◌>>◌ {κ} : {B : Type κ} → Result (Unit {0}) → Result B → Result B
err thrown >> next = err thrown
ok _ >> next = next
