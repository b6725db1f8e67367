-- ===== src/Tests/Protocol.antt =====
-- src/hfp_mcp/hfp/protocol.py on the inputs of tests/test_protocol.py and others.
use hermes_phone_hfp.Prelude.{◌≡◌, refl, false, none, some, [], ◌∷◌}
use hermes_phone_hfp.Prelude.Text.{codes, text_eq}
use hermes_phone_hfp.Prelude.Int.{pos, negsuc}
use hermes_phone_hfp.Prelude.Result.{ok, err}
use hermes_phone_hfp.Hfp.Line.{ParsedAt, parse_line}
use hermes_phone_hfp.Hfp.Number.{parse_int}
use hermes_phone_hfp.Hfp.Csv.{csv_fields}
use hermes_phone_hfp.Hfp.Results.{
  CallDirection, ClccStatus, invalid_payload, parse_cind_definition, parse_cind_values, parse_clip,
  parse_clcc,
}

line_brsf : parse_line (codes "+BRSF: 24") ≡ ParsedAt.result (codes "+BRSF") (codes "24")
unfolding parse_line
line_brsf = refl

line_ring : parse_line (codes "ring") ≡ ParsedAt.unsolicited (codes "RING") []
unfolding parse_line
line_ring = refl

line_cme : parse_line (codes "+cme error: 3") ≡ ParsedAt.response false (codes "+cme error: 3")
unfolding parse_line
line_cme = refl

int_plain : parse_int (codes " -1_0 ") ≡ some (negsuc 9)
unfolding parse_int
int_plain = refl

int_refused : parse_int (codes "1__0") ≡ none
unfolding parse_int
int_refused = refl

csv_quotes :
    csv_fields (codes "\"a\"\"b\", 129, c") ≡ some (codes "a\"b" ∷ codes "129" ∷ codes "c" ∷ [])
unfolding csv_fields
csv_quotes = refl

csv_empty : csv_fields [] ≡ none
unfolding csv_fields
csv_empty = refl

cind_definition :
    parse_cind_definition (codes "(\"call\",(0,1)),(\"CallSetup\",(0-3))")
    ≡ (codes "call", 1) ∷ (codes "callsetup", 2) ∷ []
unfolding parse_cind_definition text_eq
cind_definition = refl

cind_values : parse_cind_values (codes "0, 1,-2") ≡ ok (pos 0 ∷ pos 1 ∷ negsuc 1 ∷ [])
unfolding parse_cind_values
cind_values = refl

cind_values_refused : parse_cind_values (codes "0,,1") ≡ err invalid_payload
unfolding parse_cind_values
cind_values_refused = refl

clip :
    parse_clip (codes "\"+15551234567\",145,,,\"Alice\"")
    ≡ ok (record {
      number = codes "+15551234567";
      number_type = pos 145;
      subaddress = none;
      subaddress_type = none;
      name = some (codes "Alice");
    })
unfolding parse_clip
clip = refl

clcc :
    parse_clcc (codes "1,1,4,0,0,\"+15551234567\",145")
    ≡ ok (record {
      index = pos 1;
      direction = CallDirection.incoming;
      status = ClccStatus.incoming;
      mode = pos 0;
      multiparty = false;
      number = some (codes "+15551234567");
      number_type = some (pos 145);
      name = none;
    })
unfolding parse_clcc
clcc = refl
