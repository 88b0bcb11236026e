-- ===== src/Monitor/Json.antt =====
-- A reader of JSON, for the texts of src/monitor.cpp: objects, arrays, strings without a backslash,
-- and natural numbers, written as RFC 8259 has it. It reads a text character by character, and keeps
-- what it is inside of.
pub mod Characters
pub mod Connections
pub mod Events
pub mod Recorded
pub mod Served
mod Tests
use ebpf_system_monitor.Base.{
  ℕ, zero, suc, ◌+◌, ◌-◌, ◌*◌, Bool, true, false, ◌&&◌, ◌||◌, Option, none, some, List, [], ◌∷◌,
  ◌++◌, ◌==◌, ltb, leb, if◌then◌else◌, Text,
}

mutual
  pub data Json : Type 0 where
    string : Text → Json
    number : ℕ → Json
    array : Elements → Json
    object : Members → Json

  -- In their order: an element, or a member, comes after those before it.
  pub data Elements : Type 0 where
    no_elements : Elements
    and_element : Elements → Json → Elements

  pub data Members : Type 0 where
    no_members : Members
    and_member : Members → Text → Json → Members

-- What a value that is being read stands in.
pub data Frame : Type 0 where
  in_array : Elements → Frame
  in_object : Members → Text → Frame

-- What may come next, after the tokens read so far.
pub data Parser : Type 0 where
  want_value : List Frame → Parser
  want_value_or_end : List Frame → Parser
  after_element : Elements → List Frame → Parser
  want_key_or_end : List Frame → Parser
  want_key : Members → List Frame → Parser
  want_colon : Members → Text → List Frame → Parser
  after_member : Members → List Frame → Parser
  complete : Json → Parser
  refused : Parser

-- A value has been read.
unfoldable pub put : Json → List Frame → Parser
put v [] = complete v
put v (in_array es ∷ fs) = after_element (and_element es v) fs
put v (in_object ms k ∷ fs) = after_member (and_member ms k v) fs

unfoldable pub put_number : ℕ → Parser → Parser
unfolding put
put_number n (want_value fs) = put (number n) fs
put_number n (want_value_or_end fs) = put (number n) (in_array no_elements ∷ fs)
put_number n _ = refused

unfoldable pub put_string : Text → Parser → Parser
unfolding put
put_string s (want_value fs) = put (string s) fs
put_string s (want_value_or_end fs) = put (string s) (in_array no_elements ∷ fs)
put_string s (want_key_or_end fs) = want_colon no_members s fs
put_string s (want_key ms fs) = want_colon ms s fs
put_string s _ = refused

unfoldable pub open_array : Parser → Parser
open_array (want_value fs) = want_value_or_end fs
open_array (want_value_or_end fs) = want_value_or_end (in_array no_elements ∷ fs)
open_array _ = refused

unfoldable pub close_array : Parser → Parser
unfolding put
close_array (want_value_or_end fs) = put (array no_elements) fs
close_array (after_element es fs) = put (array es) fs
close_array _ = refused

unfoldable pub open_object : Parser → Parser
open_object (want_value fs) = want_key_or_end fs
open_object (want_value_or_end fs) = want_key_or_end (in_array no_elements ∷ fs)
open_object _ = refused

unfoldable pub close_object : Parser → Parser
unfolding put
close_object (want_key_or_end fs) = put (object no_members) fs
close_object (after_member ms fs) = put (object ms) fs
close_object _ = refused

unfoldable pub colon : Parser → Parser
colon (want_colon ms k fs) = want_value (in_object ms k ∷ fs)
colon _ = refused

unfoldable pub comma : Parser → Parser
comma (after_element es fs) = want_value (in_array es ∷ fs)
comma (after_member ms fs) = want_key ms fs
comma _ = refused

-- The characters of a string, or the digits of a number, that have been read; or neither.
pub data Reader : Type 0 where
  between : Parser → Reader
  in_string : Text → Parser → Reader
  in_number : ℕ → Parser → Reader

unfoldable pub is_digit : ℕ → Bool
is_digit c = leb 48 c && ltb c 58

-- Space, tab, line feed and carriage return.
unfoldable pub is_blank : ℕ → Bool
is_blank c = c == 32 || (c == 9 || (c == 10 || c == 13))

-- A character that is not in a string or a number.
unfoldable pub start : ℕ → Parser → Reader
unfolding open_array close_array open_object close_object colon comma is_digit is_blank
start c p =
    if c == 34
    then in_string [] p
    else if is_digit c
    then in_number (c - 48) p
    else if is_blank c
    then between p
    else if c == 91
    then between (open_array p)
    else if c == 93
    then between (close_array p)
    else if c == 123
    then between (open_object p)
    else if c == 125
    then between (close_object p)
    else if c == 58
    then between (colon p)
    else if c == 44
    then between (comma p)
    else between refused

-- No number but 0 begins with 0.
unfoldable pub step : ℕ → Reader → Reader
unfolding start put_string put_number is_digit
step c (between p) = start c p
step c (in_string s p) =
    if c == 34
    then between (put_string s p)
    else if c == 92 || ltb c 32
    then between refused
    else in_string (s ++ (c ∷ [])) p
step c (in_number n p) =
    if is_digit c
    then if n == 0 then between refused else in_number (n * 10 + (c - 48)) p
    else start c (put_number n p)

unfoldable pub read_on : Text → Reader → Reader
unfolding step
read_on [] r = r
read_on (c ∷ cs) r = read_on cs (step c r)

abbrev pub value_of : Parser → Option Json
value_of (complete v) = some v
value_of _ = none

abbrev pub result : Reader → Option Json
result (between p) = value_of p
result (in_string s p) = none
result (in_number n p) = value_of (put_number n p)

-- The value that a text is, if it is one.
unfoldable pub read_json : Text → Option Json
unfolding read_on
read_json t = result (read_on t (between (want_value [])))

-- The object with these members.
abbrev pub with_members : Members → List (Text × Json) → Members
with_members ms [] = ms
with_members ms (m ∷ rest) = with_members (and_member ms m.0 m.1) rest
