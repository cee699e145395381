-- ===== src/Transport/Stream.antt =====
-- The streams that the transports read from and write to (`impl Read + Write`), which are std's or
-- the TLS package's: whatever arrives, in whatever pieces, is an argument.
pub mod Contents
use dog.Prelude.{
  ℕ, zero, suc, ◌-◌, List, [], ◌∷◌, ◌++◌, Option, none, some, leb, if◌then◌else◌, length, take,
  drop,
}
use dog.Transport.Errors.{
  Error, IoKind, interrupted, unexpected_eof, Result, ok, err, io_error, truncated_response,
}

-- What one `read` finds: the bytes that wait, none at the end of the stream, or an error.
pub data Arrival : Type 0 where
  arrived : List ℕ → Arrival
  stopped : IoKind → Arrival

-- `refused` is the error of every write, if writing fails.
pub record Stream : Type 0 where
  pub input : List Arrival
  pub output : List ℕ
  pub refused : Option IoKind

-- Bytes that a `read` had no room for wait for the next one.
abbrev pub put_back : List ℕ → List Arrival → List Arrival
put_back [] input = input
put_back (b ∷ bytes) input = arrived (b ∷ bytes) ∷ input

pub data Filled : Type 0 where
  filled : List ℕ → List Arrival → Filled
  unfilled : IoKind → Filled

abbrev pub behind : List ℕ → Filled → Filled
behind bytes (filled more rest) = filled (bytes ++ more) rest
behind bytes (unfilled kind) = unfilled kind

-- std's `read_exact`: it reads until `n` bytes are there, and again after an interruption.
unfoldable pub read_exact : ℕ → List Arrival → Filled
read_exact zero input = filled [] input
read_exact (suc n) [] = unfilled unexpected_eof
read_exact (suc n) (arrived [] ∷ input) = unfilled unexpected_eof
read_exact (suc n) (stopped interrupted ∷ input) = read_exact (suc n) input
read_exact (suc n) (stopped kind ∷ input) = unfilled kind
read_exact (suc n) (arrived (b ∷ bytes) ∷ input) =
    if leb (length bytes) n
    then behind (b ∷ bytes) (read_exact (n - length bytes) input)
    else filled (b ∷ take n bytes) (put_back (drop n bytes) input)
