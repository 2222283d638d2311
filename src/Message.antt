-- ===== src/Message.antt =====
-- include/linear/message.h and src/message.cpp: the messages. A value of `linear::type::any` stands
-- by its MessagePack bytes, which this code only passes on.
pub mod Sending
use linear_cpp.Prelude.{
  ℕ, ◌+◌, ◌%◌, ◌^◌, Bool, false, List, [], ◌∷◌, ◌++◌, if◌then◌else◌, not, Bytes,
}
use linear_cpp.Prelude.Int.{ℤ, pos, eq_ℤ}
use linear_cpp.Group.{Groups, get}

-- `timeout_` is an int of milliseconds. The callback holders are there or not.
pub record Request : Type 0 where
  pub msgid : ℕ  -- uint32_t
  pub method : Bytes
  pub params : Bytes
  pub timeout : ℤ
  pub has_response_callback : Bool
  pub has_error_callback : Bool

pub record Response : Type 0 where
  pub request : Request
  pub msgid : ℕ
  pub result : Bytes
  pub error : Bytes

pub record Notify : Type 0 where
  pub method : Bytes
  pub params : Bytes

-- `Message::type` with the fields of each; `undefined` is the base class alone.
pub data Message : Type 0 where
  request : Request → Message
  response : Response → Message
  notify : Notify → Message
  undefined : Message

-- `GetId()`: the counter is a uint32_t, and its new value is the id.
unfoldable pub get_id : ℕ → ℕ
get_id id = (id + 1) % 2 ^ 32

-- `Request(m, p)`, with the counter before; the default timeout is 30 sec.
unfoldable pub new_request : ℕ → Bytes → Bytes → Request × ℕ
new_request id m p = (
  record {
    msgid = get_id id;
    method = m;
    params = p;
    timeout = pos 30000;
    has_response_callback = false;
    has_error_callback = false;
  },
  get_id id,
)

-- `Notify::Send(group_name)`: the sockets to which the message is sent, in turn. A send that fails
-- does not stop the others.
unfoldable pub send_group : Bytes → Groups → List ℤ
send_group name groups = get name groups

-- The loop of `Notify::Send(group_name, except_socket)`.
send_except : ℤ → List ℤ → List ℤ
send_except except [] = []
send_except except (s ∷ sockets) =
    if not (eq_ℤ s except) then s ∷ send_except except sockets else send_except except sockets

unfoldable pub send_group_except : Bytes → ℤ → Groups → List ℤ
unfolding send_except
send_group_except name except groups = send_except except (get name groups)
