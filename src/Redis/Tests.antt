-- ===== src/Redis/Tests.antt =====
-- core/uredis.cpp on small inputs, and its theorems at them.
use uco.Prelude.{◌≡◌, refl, true, false, [], ◌∷◌, ◌++◌, none, some, arith}
use uco.Prelude.Bytes.{Bytes, bytes_eq}
use uco.Prelude.Decimal.{is_digit, decimal_loop, to_string}
use uco.Prelude.Int.{ℤ, pos, negsuc}
use uco.Text.Search.{starts_with, cut_sub, step_cut}
use uco.Redis.Reply.{reply, retryable, code_eq, status_type, no_error, no_replies}
use uco.Redis.Parse.{
  Number, done, more, bad, undefined, find_line, parse_int_loop, negate, parse_int_digits,
  parse_int, simple_reply, integer_reply, parse_simple, bulk_reply, parse_bulk, cons_parsed,
  parse_elements, array_reply, parse_array, parse_one, parse_reply,
}
use uco.Redis.Wire.{
  Resp, simple, int, bulk, array, no_resps, cons_resp, print_int, print, value, serialize_args,
  serialize,
}
use uco.Redis.RoundTrip.{parse_reply-print}
use uco.Redis.Exchange.{
  sent, send_negative, send_all, receive_expired, refused, on_parsed, read_loop, read_reply,
  fill_error, Connection, replied, after_read, after_send, ucommand, uget, uexpire, error_reply,
}
use uco.Redis.Chunks.{chunks}
use uco.Redis.Command.{bulks, parse_reply-serialize, ucommand-chunks}
use uco.Redis.Health.{ucommand-broken}

program : Unit {0}
unfolding bytes_eq is_digit decimal_loop to_string starts_with cut_sub step_cut retryable code_eq
    find_line parse_int_loop negate parse_int_digits parse_int simple_reply integer_reply
    parse_simple bulk_reply parse_bulk cons_parsed parse_elements array_reply parse_array parse_one
    parse_reply print_int print value serialize_args serialize send_negative send_all on_parsed
    read_loop read_reply fill_error after_read after_send ucommand uget uexpire
program = tt

get_a : serialize (uget (b'a' ∷ [])) ≡ (
    b'*' ∷ b'2' ∷ 13 ∷ 10 ∷ b'$' ∷ b'3' ∷ 13 ∷ 10 ∷ b'G' ∷ b'E' ∷ b'T' ∷ 13 ∷ 10 ∷ b'$' ∷ b'1' ∷ 13
    ∷ 10 ∷ b'a' ∷ 13 ∷ 10 ∷ [])
unfolding program
get_a = refl

expire_text :
    uexpire (b'k' ∷ []) (negsuc 0)
    ≡ (b'E' ∷ b'X' ∷ b'P' ∷ b'I' ∷ b'R' ∷ b'E' ∷ []) ∷ (b'k' ∷ []) ∷ (b'-' ∷ b'1' ∷ []) ∷ []
unfolding program
expire_text = refl

reads_status :
    parse_reply (b'+' ∷ b'O' ∷ b'K' ∷ 13 ∷ 10 ∷ b'r' ∷ b'e' ∷ b's' ∷ b't' ∷ [])
    ≡ done
        (reply no_error status_type (pos 0) (b'O' ∷ b'K' ∷ []) no_replies)
        (b'r' ∷ b'e' ∷ b's' ∷ b't' ∷ [])
unfolding program
reads_status = refl

reads_nothing : parse_reply (b'$' ∷ b'5' ∷ 13 ∷ 10 ∷ b'h' ∷ b'e' ∷ b'l' ∷ []) ≡ more
unfolding program
reads_nothing = refl

reads_bad : parse_reply (b'*' ∷ b'1' ∷ 13 ∷ 10 ∷ b'?' ∷ []) ≡ bad
unfolding program
reads_bad = refl

-- The least integer of 64 bits overflows on the way.
reads_least :
    parse_reply (
      b':' ∷ b'-' ∷ b'9' ∷ b'2' ∷ b'2' ∷ b'3' ∷ b'3' ∷ b'7' ∷ b'2' ∷ b'0' ∷ b'3' ∷ b'6' ∷ b'8'
      ∷ b'5' ∷ b'4' ∷ b'7' ∷ b'7' ∷ b'5' ∷ b'8' ∷ b'0' ∷ b'8' ∷ 13 ∷ 10 ∷ [])
    ≡ undefined
unfolding program
reads_least = refl

reads_negative : parse_int (b'-' ∷ b'1' ∷ b'2' ∷ []) ≡ Number.number (negsuc 11)
unfolding program
reads_negative = refl

-- The bytes behind the text of a bulk are not looked at.
reads_unended :
    parse_reply (b'$' ∷ b'1' ∷ 13 ∷ 10 ∷ b'a' ∷ b'b' ∷ b'c' ∷ b'+' ∷ [])
    ≡ done (value (bulk (b'a' ∷ []))) (b'+' ∷ [])
unfolding program
reads_unended = refl

abbrev nested : Resp
nested = array (cons_resp (int (pos 7)) (cons_resp (bulk (b'h' ∷ b'i' ∷ [])) no_resps))

parse_reply-print_example :
    parse_reply (print nested ++ (b'x' ∷ [])) ≡ done (value nested) (b'x' ∷ [])
parse_reply-print_example =
    parse_reply-print nested (b'x' ∷ []) (omega arith, (omega arith, (omega arith, tt)))

parse_reply-serialize_example :
    parse_reply (
      serialize ((b'G' ∷ b'E' ∷ b'T' ∷ []) ∷ (b'a' ∷ 13 ∷ 10 ∷ b'*' ∷ b'1' ∷ []) ∷ [])
      ++ (b'+' ∷ []))
    ≡ done
        (value
          (array (bulks ((b'G' ∷ b'E' ∷ b'T' ∷ []) ∷ (b'a' ∷ 13 ∷ 10 ∷ b'*' ∷ b'1' ∷ []) ∷ []))))
        (b'+' ∷ [])
parse_reply-serialize_example =
    parse_reply-serialize ((b'G' ∷ b'E' ∷ b'T' ∷ []) ∷ (b'a' ∷ 13 ∷ 10 ∷ b'*' ∷ b'1' ∷ []) ∷ [])
      (b'+' ∷ []) (omega arith, (omega arith, (omega arith, tt)))

abbrev fresh : Connection
fresh = record { has_fd = true; broken = false; rbuf = [] }

abbrev no_text : ℤ → Bytes
no_text z = []

sent_all :
    (send_all
      (serialize ((b'P' ∷ b'I' ∷ b'N' ∷ b'G' ∷ []) ∷ []))
      0
      (sent (negsuc 10) ∷ sent (pos 14) ∷ [])).0
    ≡ some (pos 0)
unfolding program
sent_all = refl

abbrev abc : Bytes
abc = b'a' ∷ b'b' ∷ b'c' ∷ []

ping_pieces :
    (b'+' ∷ b'P' ∷ b'O' ∷ []) ++ ((b'N' ∷ b'G' ∷ 13 ∷ 10 ∷ []) ++ [])
    ≡ print (simple (b'P' ∷ b'O' ∷ b'N' ∷ b'G' ∷ []))
unfolding program
ping_pieces = refl

pong_line : cut_sub (13 ∷ 10 ∷ []) (b'P' ∷ b'O' ∷ b'N' ∷ b'G' ∷ []) ≡ none
unfolding program
pong_line = refl

ucommand-chunks_example :
    ucommand no_text
      (some fresh)
      ((b'P' ∷ b'I' ∷ b'N' ∷ b'G' ∷ []) ∷ [])
      (sent (negsuc 10) ∷ sent (pos 14) ∷ [])
      (chunks ((b'+' ∷ b'P' ∷ b'O' ∷ []) ∷ (b'N' ∷ b'G' ∷ 13 ∷ 10 ∷ []) ∷ []) ++ (refused 3 ∷ []))
    ≡ replied (some (record fresh { rbuf = [] })) (value (simple (b'P' ∷ b'O' ∷ b'N' ∷ b'G' ∷ [])))
ucommand-chunks_example =
    ucommand-chunks no_text fresh ((b'P' ∷ b'I' ∷ b'N' ∷ b'G' ∷ []) ∷ [])
      (sent (negsuc 10) ∷ sent (pos 14) ∷ []) (simple (b'P' ∷ b'O' ∷ b'N' ∷ b'G' ∷ []))
      ((b'+' ∷ b'P' ∷ b'O' ∷ []) ∷ (b'N' ∷ b'G' ∷ 13 ∷ 10 ∷ []) ∷ []) (refused 3 ∷ []) refl sent_all
      pong_line ((λ h. cc), ((λ h. cc), tt)) ping_pieces

timed_out :
    ucommand no_text
      (some fresh)
      ((b'P' ∷ b'I' ∷ b'N' ∷ b'G' ∷ []) ∷ [])
      (sent (pos 14) ∷ [])
      (receive_expired ∷ [])
    ≡ replied (some (record fresh { broken = true })) (error_reply (fill_error no_text (negsuc 61)))
unfolding program
timed_out = refl

ucommand-broken_example : true ≡ retryable (fill_error no_text (negsuc 61))
ucommand-broken_example =
    ucommand-broken no_text fresh ((b'P' ∷ b'I' ∷ b'N' ∷ b'G' ∷ []) ∷ []) (sent (pos 14) ∷ [])
      (receive_expired ∷ []) refl (tt, tt) (tt, tt) timed_out
