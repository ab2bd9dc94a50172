-- ===== src/Exec/Tests.antt =====
-- A terminal that opens, and one that does not.
use docker_mobile.Base.{
  ℕ, ◌≤◌, ◌<◌, ◌≡◌, refl, true, false, some, List, [], ◌∷◌, ◌++◌, Text, codes, length, nat_eq,
  text_eq, ok, err, cut, contains_byte, take, All, ◌≢◌, Bool, ◌||◌, nat_beq,
}
use docker_mobile.State.Names.{trim_left, trim_right, trim_space}
use docker_mobile.Exec.{
  is_hex_digit, valid_exec_id, exec_headers, exec_request, unexpected_status, read_line, digits_of,
  atoi, check_status, skip_headers, read_answer, Chunk, copy_out,
}
use docker_mobile.Exec.Request
use docker_mobile.Exec.Request.{IsHexDigit, request_line}
use docker_mobile.Exec.Answer
use docker_mobile.Exec.Answer.{Answered}
use docker_mobile.Exec.Copy
use docker_mobile.Exec.Copy.{read_all, concat, messages}

abbrev id : Text
id = codes "c0ffee"

-- A trim of the ASCII white space.
is_white : ℕ → Bool
is_white c = nat_beq c 32 || (nat_beq c 13 || nat_beq c 10)

abbrev trim : Text → Text
trim = trim_space is_white

runs : Unit {0}
unfolding valid_exec_id is_hex_digit read_line is_white digits_of atoi check_status skip_headers
    read_answer cut trim_left trim_right copy_out
runs = tt

id_passes : valid_exec_id id ≡ true
unfolding runs
id_passes = refl

id_refused : valid_exec_id (codes "../x") ≡ false
unfolding runs
id_refused = refl

abbrev line_end : Text
line_end = 13 ∷ 10 ∷ []

abbrev switching : Text
switching =
    codes "HTTP/1.1 101 UPGRADED"
    ++ (line_end ++ (codes "Upgrade: tcp" ++ (line_end ++ (line_end ++ codes "$ "))))

opens : read_answer trim switching ≡ ok (codes "$ ")
unfolding runs is_white
opens = refl

not_found : read_answer trim (codes "HTTP/1.1 404 Not Found" ++ line_end) ≡ err unexpected_status
unfolding runs is_white
not_found = refl

valid_exec_id-request_example :
    (0 < length id)
    × (length id ≤ 64)
    × All IsHexDigit id
    × (contains_byte 32 id ≡ false)
    × (contains_byte 47 id ≡ false)
    × (contains_byte 10 id ≡ false)
    × (cut 10 (exec_request id) ≡ some (request_line id, exec_headers))
valid_exec_id-request_example = Request.valid_exec_id-request id id_passes

read_answer-Answered_example : Answered trim switching (read_answer trim switching)
read_answer-Answered_example = Answer.read_answer-Answered trim switching

abbrev chunks : List Chunk
chunks =
    record { data_read = codes "a"; failed = false }
    ∷ record { data_read = []; failed = false }
    ∷ record { data_read = codes "b"; failed = true }
    ∷ []

sends_two : copy_out 5 chunks ≡ codes "a" ∷ codes "b" ∷ []
unfolding runs
sends_two = refl

copy_out-messages_example :
    (copy_out 1 chunks ≡ take 1 (messages chunks))
    × (concat (messages chunks) ≡ read_all chunks)
    × All (λ t. t ≢ []) (messages chunks)
copy_out-messages_example = Copy.copy_out-messages 1 chunks
