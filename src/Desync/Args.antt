-- ===== src/Desync/Args.antt =====
-- The options that a signed ruleset may use: offveil-core/internal/desync/chain.go,
-- ValidateStrategyArgs, and ContainsDarwinUnsupported of platform.go.
pub mod Grammar
mod Tests
use offveil.Prelude.{
  ℕ, ◌≡◌, Bool, true, false, not, ◌&&◌, ◌||◌, List, [], ◌∷◌, Option, none, some, Text, codes,
  text_eq, is_empty, length, ltb, leb, ◌==◌, cut, contains, all, any, lookup, Result, ok, err,
  ◌>>=◌, ◌>>◌, require, if◌then◌else◌,
}

-- The flags, and whether they take a value.
abbrev pub strategy_flags : List (Text × Bool)
strategy_flags =
    (codes "--split", true)
    ∷ (codes "-s", true)
    ∷ (codes "--disorder", true)
    ∷ (codes "-d", true)
    ∷ (codes "--oob", true)
    ∷ (codes "-o", true)
    ∷ (codes "--disoob", true)
    ∷ (codes "-q", true)
    ∷ (codes "--fake", true)
    ∷ (codes "-f", true)
    ∷ (codes "--ttl", true)
    ∷ (codes "-t", true)
    ∷ (codes "--fake-offset", true)
    ∷ (codes "-O", true)
    ∷ (codes "--fake-sni", true)
    ∷ (codes "-n", true)
    ∷ (codes "--fake-tls-mod", true)
    ∷ (codes "-Q", true)
    ∷ (codes "--mod-http", true)
    ∷ (codes "-M", true)
    ∷ (codes "--tlsrec", true)
    ∷ (codes "-r", true)
    ∷ (codes "--tlsminor", true)
    ∷ (codes "-m", true)
    ∷ (codes "--auto", true)
    ∷ (codes "-A", true)
    ∷ (codes "--auto-mode", true)
    ∷ (codes "-L", true)
    ∷ (codes "--proto", true)
    ∷ (codes "-K", true)
    ∷ (codes "--pf", true)
    ∷ (codes "-V", true)
    ∷ (codes "--round", true)
    ∷ (codes "-R", true)
    ∷ (codes "--udp-fake", true)
    ∷ (codes "-a", true)
    ∷ (codes "--oob-data", true)
    ∷ (codes "-e", true)
    ∷ (codes "--timeout", true)
    ∷ (codes "-T", true)
    ∷ (codes "--no-domain", false)
    ∷ (codes "-N", false)
    ∷ []

unfoldable pub flag_of : Text → Option Bool
flag_of name = lookup name strategy_flags

abbrev pub value_char : ℕ → Bool
value_char c =
    leb b'a' c && leb c b'z'
    || leb b'A' c && leb c b'Z'
    || leb b'0' c && leb c b'9'
    || contains c (codes "+-:,._=?#*")

-- validValue.
unfoldable pub valid_value : Text → Bool
valid_value v = not (is_empty v || ltb 64 (length v)) && all value_char v

pub data ArgError : Type 0 where
  empty_strategy unsupported : ArgError
  not_allowed takes_no_value needs_value invalid_value : Text → ArgError

-- What one argument is: not a flag of the list, a flag without a value that has none or has one, or a
-- flag with a value that has it behind an equals sign or in the next argument.
pub data Shape : Type 0 where
  alien bare overfull open_flag : Shape
  joined : Text → Shape

abbrev shape_of : Option Bool → Text → Bool → Shape
shape_of none value inline = alien
shape_of (some false) value false = bare
shape_of (some false) value true = overfull
shape_of (some true) value false = open_flag
shape_of (some true) value true = joined value

unfoldable pub shape : Text → Shape
unfolding flag_of
shape arg = let (name, value, inline) = cut b'=' arg in shape_of (flag_of name) value inline

abbrev pub check_last : Text → Shape → Result ArgError (Unit {0})
check_last arg alien = err (not_allowed arg)
check_last arg bare = ok tt
check_last arg overfull = err (takes_no_value arg)
check_last arg open_flag = err (needs_value arg)
check_last arg (joined v) = require (valid_value v) (invalid_value arg)

-- One step of the loop: `here` goes on behind this argument, `behind` behind the next one.
abbrev pub check_step :
    Text
    → Text
    → (Unit {0} → Result ArgError (Unit {0}))
    → (Unit {0} → Result ArgError (Unit {0}))
    → Shape
    → Result ArgError (Unit {0})
check_step arg next here behind alien = err (not_allowed arg)
check_step arg next here behind bare = here tt
check_step arg next here behind overfull = err (takes_no_value arg)
check_step arg next here behind open_flag =
    require (valid_value next) (invalid_value arg) >>= λ u. behind tt
check_step arg next here behind (joined v) =
    require (valid_value v) (invalid_value arg) >>= λ u. here tt

-- The loop of ValidateStrategyArgs.
unfoldable pub check_args : List Text → Result ArgError (Unit {0})
check_args [] = ok tt
check_args (arg ∷ []) = check_last arg (shape arg)
check_args (arg ∷ next ∷ args) =
    check_step arg next (λ u. check_args (next ∷ args)) (λ u. check_args args) (shape arg)

abbrev pub darwin_names : List Text
darwin_names =
    codes "--fake"
    ∷ codes "--ttl"
    ∷ codes "--disorder"
    ∷ codes "--disoob"
    ∷ codes "--timeout"
    ∷ codes "--udp-fake"
    ∷ codes "--def-ttl"
    ∷ []

-- A short flag, `-x`, by its letter.
unfoldable pub darwin_letter : Text → Bool
darwin_letter (d ∷ c ∷ rest) = d == b'-' && not (c == b'-') && contains c (codes "ftdqTag")
darwin_letter _ = false

abbrev pub darwin_arg : Text → Bool
darwin_arg arg = any (text_eq (cut b'=' arg).0) darwin_names || darwin_letter arg

-- ContainsDarwinUnsupported.
unfoldable pub contains_darwin_unsupported : List Text → Bool
contains_darwin_unsupported args = any darwin_arg args

-- ValidateStrategyArgs; `darwin` says that goos is "darwin".
unfoldable pub validate_strategy_args : Bool → List Text → Result ArgError (Unit {0})
validate_strategy_args darwin args =
    require (not (is_empty args)) empty_strategy
    >> check_args args
    >> require (not (darwin && contains_darwin_unsupported args)) unsupported
