-- ===== src/Site.antt =====
-- The website's database with its capture and archive tables beside the job farm.
mod Models
mod Store
pub use Models.*
unfoldable pub use Store.*
pub use ava_capture.Base.Effects.{
  Error, does_not_exist, key_error, type_error, attribute_error, integrity_error, cloud_error,
  invalid_request, recursion_limit, name_error, unbound_local, index_error, value_error, Result, ok,
  err, Effect, pure, raise, gets, or_raise, atomic, ◌>>=◌, ◌>>◌, modify, when, except_missing,
  except_any, >>=-ok, >>=-err, bind_eq, bind_inv, for_each_inv,
}
pub use ava_capture.Base.Effects.Rules.{
  Keeps, Keeps-bind, Keeps-or_raise, Keeps-gets, Keeps-lookup, Keeps-if, Keeps-pure, Keeps-raise,
  Keeps-for_each, Triple, triple_bind, triple_keeps, triple_pure, triple_lookup, Total, total_bind,
  total_pure, total_lookup, total_from, total_given, triple_run, triple_if, triple_from,
}
unfoldable pub use ava_capture.Base.Effects.{for_each}
