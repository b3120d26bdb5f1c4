-- ===== src/Whitelist/Sample.antt =====
-- A manager and its environment for runs: YAML of one range, a clock that stands still, and writes.
use aquatiq_root.Common.{
  ℕ, Text, text_eq, text_eq_iff, ◌≡◌, Option, none, some, [], ◌∷◌, if◌then◌else◌, arith,
}
use aquatiq_root.Whitelist.Types.{
  missing, WriteOutcome, written, refused, Manager, TraefikDynamicConfig, middleware_name, Yaml,
}

-- A stand-in for YAML that knows configurations with one range, and no header.
abbrev pub marshal_one : TraefikDynamicConfig → Option Text
marshal_one ((name, range ∷ []) ∷ []) = if text_eq name middleware_name then some range else none
marshal_one _ = none

pub read_back_one :
    (c : TraefikDynamicConfig) (y : Text) (now : ℕ)
    → marshal_one c ≡ some y
    → some ((middleware_name, y ∷ []) ∷ []) ≡ some c
read_back_one ((name, range ∷ []) ∷ []) y now h = ground (arith, text_eq_iff name middleware_name)
read_back_one ((name, range ∷ []) ∷ d ∷ c) y now h = cc
read_back_one ((name, range ∷ r ∷ rs) ∷ c) y now h = cc
read_back_one ((name, []) ∷ c) y now h = cc
read_back_one [] y now h = cc

abbrev pub one_range : Yaml
one_range = record {
  marshal = marshal_one;
  unmarshal = λ y. some ((middleware_name, y ∷ []) ∷ []);
  header = λ _. [];
  read_back = read_back_one;
}

abbrev pub at_five : ℕ → ℕ
at_five _ = 5

abbrev pub writes_work : ℕ → WriteOutcome
writes_work _ = written

abbrev pub writes_fail : ℕ → WriteOutcome
writes_fail _ = refused

abbrev pub range : Text
range = b'1' ∷ b'.' ∷ b'0' ∷ b'.' ∷ b'0' ∷ b'.' ∷ b'0' ∷ b'/' ∷ b'8' ∷ []

abbrev pub address : Text
address = b'1' ∷ b'.' ∷ b'2' ∷ b'.' ∷ b'3' ∷ b'.' ∷ b'4' ∷ []

abbrev pub empty : Manager
empty = record {
  whitelist = [];
  blacklist = [];
  audit = some [];
  file = missing;
  readings = 0;
  writes = 0;
}
