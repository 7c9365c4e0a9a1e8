-- ===== src/Redis/Reply.antt =====
-- `RedisError`, `Reply` and its types, of core/uredis.h, and `RedisError::Retryable`.
use uco.Prelude.{Bool, false, [], ◌==◌, ◌&&◌, ◌||◌, not}
use uco.Prelude.Bytes.{Bytes}
use uco.Prelude.Int.{ℤ, pos, negsuc, ltb_ℤ}

-- `UredisError`; the transport errors are negated errno values.
abbrev pub bad_argument : ℤ
bad_argument = negsuc 199

abbrev pub timeout : ℤ
timeout = negsuc 200

abbrev pub server_error : ℤ
server_error = negsuc 299

unfoldable pub code_eq : ℤ → ℤ → Bool
code_eq (pos a) (pos b) = a == b
code_eq (negsuc a) (negsuc b) = a == b
code_eq _ _ = false

pub record RedisError : Type 0 where
  pub ret_code : ℤ
  pub err_msg : Bytes

abbrev pub no_error : RedisError
no_error = record { ret_code = pos 0; err_msg = [] }

unfoldable pub retryable : RedisError → Bool
retryable e =
    code_eq e.ret_code timeout
    || (ltb_ℤ e.ret_code (pos 0)
        && not (code_eq e.ret_code bad_argument)
        && not (code_eq e.ret_code server_error))

-- `Reply::Type`.
pub data ReplyType : Type 0 where
  nil_type string_type status_type integer_type array_type : ReplyType

-- `Reply`: the error it extends, the type, the integer, the text and the elements.
mutual
  pub data Reply : Type 0 where
    reply : RedisError → ReplyType → ℤ → Bytes → Replies → Reply

  pub data Replies : Type 0 where
    no_replies : Replies
    cons_reply : Reply → Replies → Replies

abbrev pub error_of : Reply → RedisError
error_of (reply e t i s rs) = e

abbrev pub type_of : Reply → ReplyType
type_of (reply e t i s rs) = t

abbrev pub integer_of : Reply → ℤ
integer_of (reply e t i s rs) = i

abbrev pub str_of : Reply → Bytes
str_of (reply e t i s rs) = s

-- A reply as it is before anything is read into it.
abbrev pub empty_reply : Reply
empty_reply = reply no_error nil_type (pos 0) [] no_replies
