-- ===== src/Aml/Resource/Types.antt =====
-- aml/src/resource.rs: the data types of resources.
use acpi_rs.Prelude.{ℕ, Bool}

pub data InterruptTrigger : Type 0 where
  edge level : InterruptTrigger

pub data InterruptPolarity : Type 0 where
  active_high active_low : InterruptPolarity

-- `AddressSpaceResourceType`.
pub data SpaceType : Type 0 where
  memory_range io_range bus_number_range : SpaceType

-- `AddressSpaceDecodeType`.
pub data DecodeType : Type 0 where
  additive subtractive : DecodeType

pub record AddressSpaceDescriptor : Type 0 where
  pub resource_type : SpaceType
  pub is_maximum_address_fixed : Bool
  pub is_minimum_address_fixed : Bool
  pub decode_type : DecodeType
  pub granularity : ℕ
  pub address_range : ℕ × ℕ
  pub translation_offset : ℕ
  pub space_length : ℕ

-- `MemoryRangeDescriptor`.
pub data MemoryRange : Type 0 where
  -- is_writable, base_address, range_length
  fixed_location : Bool → ℕ → ℕ → MemoryRange

pub record IrqDescriptor : Type 0 where
  pub is_consumer : Bool
  pub trigger : InterruptTrigger
  pub polarity : InterruptPolarity
  pub is_shared : Bool
  pub is_wake_capable : Bool
  pub irq : ℕ

-- `DMASupportedSpeed`.
pub data DmaSpeed : Type 0 where
  compatibility_mode type_a type_b type_f : DmaSpeed

-- `DMATransferTypePreference`.
pub data DmaTransfer : Type 0 where
  only_8_bit both_8_and_16_bit only_16_bit : DmaTransfer

pub record DmaDescriptor : Type 0 where
  pub channel_mask : ℕ
  pub supported_speeds : DmaSpeed
  pub is_bus_master : Bool
  pub transfer_type_preference : DmaTransfer

pub record IoPortDescriptor : Type 0 where
  pub decodes_full_address : Bool
  pub port_range : ℕ × ℕ
  pub base_alignment : ℕ
  pub port_count : ℕ

pub data Resource : Type 0 where
  irq_resource : IrqDescriptor → Resource
  address_space : AddressSpaceDescriptor → Resource
  memory : MemoryRange → Resource
  io_port : IoPortDescriptor → Resource
  dma : DmaDescriptor → Resource
