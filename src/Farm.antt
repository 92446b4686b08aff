-- ===== src/Farm.antt =====
-- The job farm of website-backend/ava/jobs: its tables, its store and the model methods.
mod Models
mod Store
mod Methods
mod Laws
pub use Laws.*
pub use Models.*
pub use ava_capture.Base.Effects.{
  Error, does_not_exist, key_error, type_error, attribute_error, integrity_error, cloud_error,
  invalid_request, recursion_limit, multiple_objects, bare_exception, yield_to_children, Result, ok,
  err, Effect, pure, raise, gets, or_raise, atomic, ◌>>=◌, ◌>>◌, modify, when, except_missing,
  except_any, >>=-ok, >>=-err, bind_eq, bind_inv, for_each_inv,
}
unfoldable pub use ava_capture.Base.Effects.{for_each}
unfoldable pub use Store.*
unfoldable pub use Methods.*
