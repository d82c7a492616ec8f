-- ===== src/Platform.antt =====
-- What the program uses of the Rust standard library and leaves to it: the Unicode tables behind
-- `str::to_lowercase` and `{:?}`, and the decimal reader of f64 (its result is a bit pattern).
use opc_cli.Prelude.{ℕ, Option, Text}

pub record Platform : Type 0 where
  pub to_lowercase : Text → Text
  pub debug : Text → Text
  pub parse_f64 : Text → Option ℕ
