-- ===== src/AtParams/Tests.antt =====
-- Addresses and lists at concrete inputs.
use ucxclient.Prelude.{◌≡◌, ◌≢◌, refl, some, [], ◌∷◌, Bytes, codes, arith}
use ucxclient.Prelude.Int.{pos, negsuc, ◌-ℤ◌}
use ucxclient.Prelude.Decimal.{
  show_ℕ, decimal, scan_digits, show_ℤ, read_long, skip_spaces, read_sign,
}
use ucxclient.AtParams.Ip.{
  IpAddress, v6, string_to_ip_address, ip_address_to_string, show_word, show_hex4,
}
use ucxclient.AtParams.Ip.RoundTrip.{string_to_ip_address-ip_address_to_string}
use ucxclient.AtParams.IntList.{
  string_to_int_list, int_list_to_string, int_list_text, int_list_loop, count_commas,
}
use ucxclient.AtParams.Addresses.{BtLeAddress, random, unknown}

abbrev mac : Bytes
mac = 0 ∷ 1 ∷ 2 ∷ 254 ∷ 4 ∷ 5 ∷ []

abbrev device : BtLeAddress
device = record { address = mac; type_of = random }

random-ne-unknown : random ≢ unknown
random-ne-unknown e = cc

abbrev host : IpAddress
host = v6 0x1 0 0 0xFE800000

string_to_ip_address_example :
    string_to_ip_address (codes "[fe80:0000:0000:0000:0000:0000:0000:0001]") ≡ some host
unfolding ip_address_to_string show_word show_hex4
string_to_ip_address_example =
    string_to_ip_address-ip_address_to_string host 42
      (omega arith, omega arith, omega arith, omega arith) refl

list_text : int_list_to_string (pos 1 ∷ negsuc 1 ∷ []) 8 ≡ some (codes "[1,-2]")
unfolding int_list_to_string int_list_text show_ℤ show_ℕ decimal
list_text = refl

list_read : string_to_int_list (codes "[1,-2]") ≡ some (pos 1 ∷ negsuc 1 ∷ [])
unfolding string_to_int_list int_list_loop count_commas read_long skip_spaces read_sign scan_digits
    ◌-ℤ◌
list_read = refl
