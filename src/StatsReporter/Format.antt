-- ===== src/StatsReporter/Format.antt =====
-- The texts of `print_top`: human_bytes, ip_port and the padded row. The colours and the heading are
-- left out. `inet_ntop`, which writes an address in dotted decimal, is a parameter.
use ebpf_system_monitor.Base.{
  ℕ, ◌+◌, ◌*◌, ◌/◌, ◌^◌, ◌≤◌, ◌<◌, ◌≡◌, refl, inl, inr, [], ◌∷◌, ◌++◌, arith, ltb, if◌then◌else◌,
  length, replicate, ◌-◌, Text, to_string, read_from, read_from-to_string, AreDigits,
  to_string-AreDigits, Bool-cases,
}
use ebpf_system_monitor.StatsReporter.{Entry}

-- `b / 1024` with 'K', or `b / 1048576` with 'M'.
unfoldable pub human_bytes : ℕ → Text
human_bytes b =
    if ltb b 1024
    then to_string b ++ (66 ∷ [])
    else if ltb b (1024 * 1024)
    then to_string (b / 1024) ++ (75 ∷ [])
    else to_string (b / (1024 * 1024)) ++ (77 ∷ [])

-- Left-aligned by `std::setw`: a text that is longer than the width stays whole.
unfoldable pub setw : ℕ → Text → Text
setw width text = text ++ replicate (width - length text) 32

module _ (inet_ntop : ℕ → Text) where
  unfoldable pub ip_port : ℕ → ℕ → Text
  ip_port ip port = inet_ntop ip ++ (58 ∷ to_string port)

  -- One line of the table.
  unfoldable pub row : Entry → Text
  unfolding ip_port human_bytes setw
  row e =
      setw 6 (to_string e.key.pid)
      ++ (setw 16 e.stats.comm
          ++ (setw 20 (ip_port e.key.src_ip e.key.src_port)
              ++ (setw 20 (ip_port e.key.dst_ip e.key.dst_port)
                  ++ (setw 10 (human_bytes e.stats.bytes_tx)
                      ++ (setw 10 (human_bytes e.stats.bytes_rx) ++ (10 ∷ []))))))

-- The letter and the size of the unit for `b` bytes: bytes below 1024, kilobytes below 1048576,
-- megabytes from there.
pub data UnitOf (b : ℕ) : ℕ → ℕ → Type 0 where
  bytes : b < 1024 → UnitOf b 66 1
  kilobytes : 1024 ≤ b → b < 1048576 → UnitOf b 75 1024
  megabytes : 1048576 ≤ b → UnitOf b 77 1048576

-- A text that shows a number of bytes in whole units of its unit, rounded down.
pub record Shows (b : ℕ) (text : Text) : Type 0 where
  pub number : Text
  pub letter : ℕ
  pub size : ℕ
  pub spelled : text ≡ number ++ (letter ∷ [])
  pub digits_only : AreDigits number
  pub unit : UnitOf b letter size
  pub at_least : read_from 0 number * size ≤ b
  pub below : b < (read_from 0 number + 1) * size

-- human_bytes shows a 64-bit number in decimal digits and the letter of its unit, in whole units,
-- rounded down: in bytes below 1024, in kilobytes from there and below 1048576, in megabytes from
-- there on.
pub human_bytes-Shows : (b : ℕ) → b < 2 ^ 64 → Shows b (human_bytes b)
unfolding human_bytes
human_bytes-Shows b h = elim (Bool-cases (ltb b 1024)) [
  | inl small ↦ rw small (record {
    number = to_string b;
    letter = 66;
    size = 1;
    spelled = refl;
    digits_only = to_string-AreDigits b;
    unit = bytes (ground arith);
    at_least = omega (arith, read_from-to_string b h);
    below = omega (arith, read_from-to_string b h);
  })
  | inr large ↦ elim (Bool-cases (ltb b (1024 * 1024))) [
    | inl middle ↦
        rw (large, middle)
          (record {
            number = to_string (b / 1024);
            letter = 75;
            size = 1024;
            spelled = refl;
            digits_only = to_string-AreDigits (b / 1024);
            unit = kilobytes (ground arith) (ground arith);
            at_least = omega (arith, read_from-to_string (b / 1024));
            below = omega (arith, read_from-to_string (b / 1024));
          })
    | inr huge ↦
        rw (large, huge)
          (record {
            number = to_string (b / 1048576);
            letter = 77;
            size = 1048576;
            spelled = refl;
            digits_only = to_string-AreDigits (b / 1048576);
            unit = megabytes (ground arith);
            at_least = omega (arith, read_from-to_string (b / 1048576));
            below = omega (arith, read_from-to_string (b / 1048576));
          })
  ]
]
