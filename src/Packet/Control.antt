-- ===== src/Packet/Control.antt =====
-- src/oracledb/impl/thin/packet.pyx: ReadBuffer._process_control_packet, what it reads.
use python_oracledb.Prelude.{ℕ, ◌==◌, if◌then◌else◌}
use python_oracledb.Bytes.{msb}
use python_oracledb.Buffer.{M, ◌>>=◌, ◌>>◌, pure}
use python_oracledb.Buffer.Integer.{read_uint16, read_uint32}
use python_oracledb.Buffer.Skip.{skip_raw_bytes}

abbrev pub packet_header_size : ℕ
packet_header_size = 8

abbrev pub tns_control_type_inband_notification : ℕ
tns_control_type_inband_notification = 8

abbrev pub tns_control_type_reset_oob : ℕ
tns_control_type_reset_oob = 9

-- What a control packet says.
pub data ControlMessage : Type 0 where
  reset_oob : ControlMessage
  notification : ℕ → ControlMessage
  unknown : ControlMessage

unfoldable pub read_control : M ControlMessage
read_control = do
  skip_raw_bytes packet_header_size
  control_type ← read_uint16 msb
  if control_type == tns_control_type_reset_oob
      then pure reset_oob
      else if control_type == tns_control_type_inband_notification
      then (do skip_raw_bytes 4; error_num ← read_uint32 msb; pure (notification error_num))
      else pure unknown
