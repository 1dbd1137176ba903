-- ===== src/Amqp.antt =====
-- What cpp/rabbitmq/rabbitmq-c-0.8.0/examples/amqp_sendstring.cpp uses of rabbitmq-c, whose calls are
-- a parameter, and how it tells of their errors: die, die_on_error and die_on_amqp_error.
use pungoo.Common.{
  ℕ, ◌<◌, zero, suc, ◌+◌, ◌-◌, ◌/◌, ◌%◌, Bool, true, ◌≡◌, Option, none, some, ltb, ◌==◌,
  if◌then◌else◌, List, [], ◌∷◌, ◌++◌,
}
use pungoo.Common.Int.{ℤ, pos, negsuc}
use pungoo.Clib.Bytes.{Bytes, lit, decimal}

-- What amqp_basic_publish is given, with the properties of the message.
pub record Message : Type 0 where
  pub exchange : Bytes
  pub routing_key : Bytes
  pub content_type : Bytes
  pub delivery_mode : ℕ
  pub expiration : Bytes
  pub body : Bytes

-- The calls of the library. The host is a `char *`, which may be null.
pub data Request : Type 0 where
  tcp_socket_new : Request
  socket_open : Option Bytes → ℤ → Request
  login : Bytes → Bytes → Bytes → Request
  channel_open : Request
  basic_publish : Message → Request

pub record Call : Type 0 where
  pub caller : ℕ
  pub request : Request

-- x.reply of a server exception: its id, and the code and text that the two closing methods carry.
pub data Method : Type 0 where
  connection_close : ℕ → Bytes → Method
  channel_close : ℕ → Bytes → Method
  other_method : ℕ → Method

-- amqp_rpc_reply_t, by its reply_type.
pub data RpcReply : Type 0 where
  response_normal : RpcReply
  response_none : RpcReply
  library_exception : ℤ → RpcReply
  server_exception : Method → RpcReply

-- What each call comes to, given the calls so far, the one in question first: whether there is a
-- socket, the status of amqp_socket_open and of amqp_basic_publish, the replies to amqp_login and
-- amqp_channel_open, and the texts of amqp_error_string2. Beside the library it holds what the program
-- leaves to its platform: the long that printf takes for `%ld` where an int was passed. C leaves that
-- undefined (`none`); where int and long are passed alike it is a number.
pub record Rabbit : Type 0 where
  pub has_socket : List Call → Bool
  pub open_status : List Call → ℤ
  pub login_reply : List Call → RpcReply
  pub channel_reply : List Call → RpcReply
  pub publish_status : List Call → ℤ
  pub error_string : ℤ → Bytes
  pub long_of_int : ℕ → Option ℤ

-- The platform takes an int that is passed for `%ld` as its value.
abbrev pub ReadsInts : Rabbit → Type 0
ReadsInts r = (n : ℕ) → n < 10000 → r.long_of_int n ≡ some (pos n)

-- The platform leaves it undefined, as the C standard does.
abbrev pub LeavesInts : Rabbit → Type 0
LeavesInts r = (n : ℕ) → r.long_of_int n ≡ none

-- The library does what it is asked.
pub record IsHealthy (r : Rabbit) : Type 0 where
  pub socket : (calls : List Call) → r.has_socket calls ≡ true
  pub opened : (calls : List Call) → r.open_status calls ≡ pos 0
  pub logged_in : (calls : List Call) → r.login_reply calls ≡ response_normal
  pub channel : (calls : List Call) → r.channel_reply calls ≡ response_normal
  pub published : (calls : List Call) → r.publish_status calls ≡ pos 0

abbrev hex_digit : ℕ → ℕ
hex_digit d = if ltb d 10 then b'0' + d else b'A' + (d - 10)

-- The last `k` hexadecimal digits of a number.
hex_onto : ℕ → ℕ → Bytes → Bytes
hex_onto zero n acc = acc
hex_onto (suc k) n acc = hex_onto k (n / 16) (hex_digit (n % 16) ∷ acc)

-- `%.*s`: the chars up to the length, or to a NUL before it.
unfoldable pub until_nul : Bytes → Bytes
until_nul [] = []
until_nul (c ∷ rest) = let more = until_nul rest in if c == 0 then [] else c ∷ more

-- The inner switch of die_on_amqp_error.
unfoldable pub method_text : Method → Bytes
unfolding hex_onto until_nul
method_text (connection_close code text) =
    lit ": server connection error " ++ decimal (pos code) ++ lit "h, message: " ++ until_nul text
method_text (channel_close code text) =
    lit ": server channel error " ++ decimal (pos code) ++ lit "h, message: " ++ until_nul text
method_text (other_method id) = lit ": unknown server error, method id 0x" ++ hex_onto 8 id []

-- The line that die_on_amqp_error writes before it ends the process; `none` if it returns.
unfoldable pub die_on_amqp_error : Rabbit → RpcReply → Bytes → Option Bytes
unfolding method_text
die_on_amqp_error r response_normal context = none
die_on_amqp_error r response_none context = some (context ++ lit ": missing RPC reply type!")
die_on_amqp_error r (library_exception e) context = some (context ++ lit ": " ++ r.error_string e)
die_on_amqp_error r (server_exception m) context = some (context ++ method_text m)

-- The line that die_on_error writes before it ends the process; `none` if it returns.
unfoldable pub die_on_error : Rabbit → ℤ → Bytes → Option Bytes
die_on_error r (pos n) context = none
die_on_error r (negsuc n) context = some (context ++ lit ": " ++ r.error_string (negsuc n))
