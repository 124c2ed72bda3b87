-- ===== src/Reserve.antt =====
-- persistent_reserve/device.h: the error codes and the class of a reservation device. An `int` or
-- a `pr_dev_err` is an integer, since the NVMe class returns the raw status of a command as one.
pub mod Exec
pub mod Scsi
pub mod Nvme
pub mod KeyFile
pub mod Errors
use corosync_qdisk.Prelude.{ℕ, ℤ, pos, negsuc, List, Text}
use corosync_qdisk.Corosync.{St}

-- `pr_dev_err`, counted up from -127.
abbrev pub pr_err_ok : ℤ
pr_err_ok = pos 0

abbrev pub pr_err_unknown : ℤ
pr_err_unknown = negsuc 126

abbrev pub pr_err_device_len_exceeded : ℤ
pr_err_device_len_exceeded = negsuc 125

abbrev pub pr_err_device_invalid_device_type : ℤ
pr_err_device_invalid_device_type = negsuc 124

abbrev pub pr_err_device_memory_allocation_failed : ℤ
pr_err_device_memory_allocation_failed = negsuc 123

abbrev pub pr_err_device_cant_read_keyfile : ℤ
pr_err_device_cant_read_keyfile = negsuc 122

abbrev pub pr_err_device_not_ready : ℤ
pr_err_device_not_ready = negsuc 121

abbrev pub pr_err_device_not_operable : ℤ
pr_err_device_not_operable = negsuc 120

abbrev pub pr_err_device_not_reserved : ℤ
pr_err_device_not_reserved = negsuc 119

abbrev pub pr_err_registration_failed : ℤ
pr_err_registration_failed = negsuc 118

abbrev pub pr_err_reservation_failed : ℤ
pr_err_reservation_failed = negsuc 117

abbrev pub pr_err_unregister_failed : ℤ
pr_err_unregister_failed = negsuc 116

abbrev pub pr_err_release_failed : ℤ
pr_err_release_failed = negsuc 115

abbrev pub pr_err_abort_failed : ℤ
pr_err_abort_failed = negsuc 114

abbrev pub pr_err_found_unregistered_node_key : ℤ
pr_err_found_unregistered_node_key = negsuc 113

abbrev pub pr_err_exec_failed : ℤ
pr_err_exec_failed = negsuc 112

abbrev pub pr_err_parse_data_err : ℤ
pr_err_parse_data_err = negsuc 111

-- `struct persistent_reserve_device_class`, closed over the handle; `free` has no effect here. A
-- key that an operation does not write is given as 0, to which every caller initialises it.
pub record Device (W : Type 0) : Type 0 where
  pub register_key : St W ℤ
  pub unregister_key : St W ℤ
  pub reserve : St W ℤ
  pub release : St W ℤ
  pub is_reserved : St W ℤ
  pub get_name : Text
  pub get_key : Text
  pub get_ikey : ℕ
  pub get_registered_keys : St W (ℤ × List ℕ)
  pub abort : St W ℤ
  pub get_device_id : Text
  pub get_reservation_owner_key : St W (ℤ × ℕ)
