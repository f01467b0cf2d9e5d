-- ===== src/Examples/Console.antt =====
-- Examples for the identifiers, the interactive mode and the command line.
use octet.Prelude.{ℕ, ◌%◌, ◌≡◌, refl, true, Option, none, nat_eq, list_eq, Bytes}
use octet.Uuid.Unique.{generate_uuid-same}
use octet.Uuid.{set_width, hex_digit}
use octet.Uuid.Valid.{generate_uuid-valid}
use octet.Uuid.{generate_uuid, is_valid_uuid}

generate_uuid-valid_example : is_valid_uuid (generate_uuid 5 6 7) ≡ true
generate_uuid-valid_example = generate_uuid-valid 5 6 7

abbrev no_number : Bytes → Option ℕ
no_number t = none

-- The counter has gone round once.
same_texts : generate_uuid 5 6 7 ≡ generate_uuid 5 6 4103
unfolding generate_uuid set_width hex_digit
same_texts = refl

generate_uuid-same_example :
    (5 % 281474976710656 ≡ 5 % 281474976710656)
    × (7 % 4096 ≡ 4103 % 4096)
    × (6 % 4611686018427387904 ≡ 6 % 4611686018427387904)
generate_uuid-same_example = generate_uuid-same 5 5 6 6 7 4103 same_texts
