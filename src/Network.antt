-- ===== src/Network.antt =====
-- src/common/net: the responses of request.hpp and the numbering of calls of utilities.hpp. What
-- travels is the value itself; serialisation is left out.
use io_scheduler.Prelude.{ℕ, ◌+◌, ◌%◌, ◌^◌, Option, none, some}
use io_scheduler.Types.{Bytes, ErrorCode}

pub record GenericResponse : Type 0 where
  pub op_id : ℕ  -- uint64_t
  pub error_code : ErrorCode

-- `response_with_value`; its value is set on success.
pub record Response {ℓ} (A : Type ℓ) : Type ℓ where
  pub op_id : ℕ  -- uint64_t
  pub error_code : ErrorCode
  pub value : Option A

pub record RpcInfo : Type 0 where
  pub id : ℕ
  pub pid : Option ℕ
  pub children : ℕ
  pub name : Bytes
  pub address : Bytes

-- `new_id`: the number, and the counter that it leaves.
unfoldable pub new_id : ℕ → ℕ × ℕ
new_id counter = (counter, (counter + 1) % 2 ^ 64)

unfoldable pub create : ℕ → Bytes → Bytes → RpcInfo × ℕ
unfolding new_id
create counter name address =
    let (id, counter') = new_id counter in
    (record { id = id; pid = none; children = 0; name = name; address = address }, counter')

-- The method is `const`: the number of children of the parent stays as it was.
unfoldable pub add_child : RpcInfo → Bytes → RpcInfo
add_child rpc address = record {
  id = rpc.children;
  pid = some rpc.id;
  children = 0;
  name = rpc.name;
  address = address;
}
