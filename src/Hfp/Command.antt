-- ===== src/Hfp/Command.antt =====
-- The commands of src/hfp_mcp/hfp/protocol.py and `_encode_command` of session.py. A command is a
-- text of code points; what is sent are its bytes.
use hermes_phone_hfp.Prelude.{
  ℕ, ◌≤◌, ◌<◌, Bool, true, false, not, ◌||◌, List, [], ◌∷◌, ◌++◌, length, length-append, any, All,
  ◌==◌, ltb, leb, ◌≡◌, refl, arith, if◌then◌else◌,
}
use hermes_phone_hfp.Prelude.Text.{Text, codes}
use hermes_phone_hfp.Prelude.Decimal.{decimal}
use hermes_phone_hfp.Prelude.Result.{Result, ok, err}

abbrev pub cmd_brsf : ℕ → Text
cmd_brsf features = codes "AT+BRSF=" ++ (decimal features ++ 13 ∷ [])

abbrev pub cmd_cind_list : Text
cmd_cind_list = codes "AT+CIND=?" ++ 13 ∷ []

abbrev pub cmd_cind_read : Text
cmd_cind_read = codes "AT+CIND?" ++ 13 ∷ []

abbrev pub cmd_cmer : Text
cmd_cmer = codes "AT+CMER=3,0,0,1" ++ 13 ∷ []

abbrev pub cmd_chld_list : Text
cmd_chld_list = codes "AT+CHLD=?" ++ 13 ∷ []

abbrev pub cmd_clip_enable : Text
cmd_clip_enable = codes "AT+CLIP=1" ++ 13 ∷ []

abbrev pub cmd_atd : Text → Text
cmd_atd number = codes "ATD" ++ (number ++ (b';' ∷ 13 ∷ []))

abbrev pub cmd_clcc : Text
cmd_clcc = codes "AT+CLCC" ++ 13 ∷ []

abbrev pub max_at_command_bytes : ℕ
max_at_command_bytes = 512

pub data CommandError : Type 0 where
  framing not_ascii too_long : CommandError

-- `"\r" in command[:-1] or not command.endswith("\r")`
unfoldable pub misplaced_cr : Text → Bool
misplaced_cr [] = true
misplaced_cr (c ∷ []) = not (c == 13)
misplaced_cr (c ∷ d ∷ rest) = c == 13 || misplaced_cr (d ∷ rest)

-- `_encode_command`
unfoldable pub encode_command : Text → Result CommandError (List ℕ)
encode_command command =
    if any (λ c. c == 10) command || misplaced_cr command
    then err framing
    else if any (λ c. leb 128 c) command
    then err not_ascii
    else if ltb max_at_command_bytes (length command)
    then err too_long
    else ok command

-- A text of one command line: no line end within it.
abbrev pub IsLine : Text → Type 0
IsLine = All (λ c. ((c == 13) ≡ false) × ((c == 10) ≡ false) × (ltb c 128 ≡ true))

-- The line of a command, without its last character.
unfoldable pub body : Text → Text
body [] = []
body (c ∷ []) = []
body (c ∷ d ∷ rest) = c ∷ body (d ∷ rest)

body-IsLine :
    (command : Text)
    → any (λ c. c == 10) command ≡ false
    → misplaced_cr command ≡ false
    → any (λ c. leb 128 c) command ≡ false
    → (command ≡ body command ++ 13 ∷ []) × IsLine (body command)
unfolding misplaced_cr body
body-IsLine [] lf cr ascii = cc
body-IsLine (c ∷ []) lf cr ascii = (ground arith, tt)
body-IsLine (c ∷ d ∷ rest) lf cr ascii =
    let ih = body-IsLine (d ∷ rest) (ground arith) (ground arith) (ground arith) in
    (ground (arith, ih.0), (ground arith, ih.1))

-- Whatever text is given, what is sent is that text, of at most 512 bytes, and it is one line of
-- ASCII with one carriage return behind it: no command can smuggle in a second one.
pub encode_command_sends :
    (command bytes : List ℕ)
    → encode_command command ≡ ok bytes
    → (bytes ≡ command)
      × (bytes ≡ body bytes ++ 13 ∷ [])
      × IsLine (body bytes)
      × (length bytes ≤ max_at_command_bytes)
unfolding encode_command
encode_command_sends command bytes sent =
    let same : bytes ≡ command = ground arith in
    let lf : any (λ c. c == 10) command ≡ false = ground arith in
    let cr : misplaced_cr command ≡ false = ground arith in
    let ascii : any (λ c. leb 128 c) command ≡ false = ground arith in
    let line = body-IsLine command lf cr ascii in
    (same, rw same line.0, rw same line.1, rw same (ground arith))

any-line :
    (body : Text)
    → IsLine body
    → (any (λ c. c == 10) (body ++ 13 ∷ []) ≡ false)
      × (misplaced_cr (body ++ 13 ∷ []) ≡ false)
      × (any (λ c. leb 128 c) (body ++ 13 ∷ []) ≡ false)
unfolding misplaced_cr
any-line [] h = (refl, refl, refl)
any-line (c ∷ []) h = (ground arith, ground arith, ground arith)
any-line (c ∷ d ∷ rest) h =
    let ih = any-line (d ∷ rest) h.1 in
    (ground (arith, ih.0), ground (arith, ih.1), ground (arith, ih.2))

-- A line of ASCII of at most 511 bytes is sent with a carriage return behind it.
pub encode_command-of_line :
    (body : Text)
    → IsLine body
    → length body < max_at_command_bytes
    → encode_command (body ++ 13 ∷ []) ≡ ok (body ++ 13 ∷ [])
unfolding encode_command
encode_command-of_line body line room =
    let plain = any-line body line in
    ground (arith, plain.0, plain.1, plain.2, length-append body (13 ∷ []))
