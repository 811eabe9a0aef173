-- ===== src/Protocol/Header.antt =====
-- The protocol header, printed and parsed (src/core/structure.rs).
use clash_verge_service_ipc.Prelude.{◌≡◌, refl, true, false, some, [], ◌∷◌, arith, ◌==◌, All, Text}
use clash_verge_service_ipc.Prelude.Decimal.{is_digit, decimal, decimal-digits, parse_uint-decimal}
use clash_verge_service_ipc.Prelude.Split.{split_once-append}
use clash_verge_service_ipc.Protocol.{ProtocolVersion, FitsU16, header_value, parse_header, u16_max}

-- A digit is not the dot.
digits_no_dot : (s : Text) → All (λ c. is_digit c ≡ true) s → All (λ c. (c == b'.') ≡ false) s
digits_no_dot [] h = tt
digits_no_dot (c ∷ s) h = (ground arith, digits_no_dot s h.1)

-- Parsing the header that a version is printed as gives the version back, for every version whose
-- two fields are `u16`.
pub parse_header-header_value :
    (v : ProtocolVersion) → FitsU16 v → parse_header (header_value v) ≡ some v
unfolding parse_header header_value
parse_header-header_value v h =
    rw
      (split_once-append b'.' (decimal v.epoch) (decimal v.revision)
        (digits_no_dot (decimal v.epoch) (decimal-digits v.epoch)))
      (rw (parse_uint-decimal u16_max v.epoch h.epoch_fits)
        (rw (parse_uint-decimal u16_max v.revision h.revision_fits) refl))
