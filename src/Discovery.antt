-- ===== src/Discovery.antt =====
-- lib/nearobject/discovery: NearObjectDiscoveryService, NearObjectDiscoverySource and its Bluetooth variant;
-- lib/nearobject/service: SecureDevice; lib/nearobject: NearObjectManager. A pointer is an address, a null
-- pointer `none`, and an outer `none` is an exception.
mod Sources
use near_object_framework.Common.{ℕ, List, [], ◌∷◌, ◌++◌, Option, none, some}
use near_object_framework.Profile.{NearObjectProfile}

-- The virtual function of NearObjectDiscoverySource, over what a source keeps.
pub record SourceImpl (S : Type 0) : Type 0 where
  pub establish_connection_impl : S → Option (Option ℕ)

-- NearObjectDiscoverySource::EstablishConnection.
pub establish_connection : {S : Type 0} → SourceImpl S → S → Option (Option ℕ)
establish_connection impl source = impl.establish_connection_impl source

-- NearObjectDiscoverySource::EstablishConnectionImpl.
pub base_source : {S : Type 0} → SourceImpl S
base_source = record { establish_connection_impl = λ s. some none }

-- NearObjectDiscoverySourceBluetooth::EstablishConnectionImpl: the logic_error "not implemented".
pub bluetooth_source : {S : Type 0} → SourceImpl S
bluetooth_source = record { establish_connection_impl = λ s. none }

-- NearObjectDiscoveryService, with the addresses of its sources.
pub record NearObjectDiscoveryService : Type 0 where
  pub m_discovery_sources : List ℕ

-- NearObjectDiscoveryService::RegisterDiscoverySource.
pub register_discovery_source : ℕ → NearObjectDiscoveryService → NearObjectDiscoveryService
register_discovery_source source service = record {
  m_discovery_sources = service.m_discovery_sources ++ source ∷ [];
}

-- The virtual function of SecureDevice.
pub record SecureDeviceImpl (S Parameters : Type 0) : Type 0 where
  pub create_channel_impl : Parameters → S → Option ℕ

-- SecureDevice::CreateChannel.
pub create_channel :
    {S Parameters : Type 0} → SecureDeviceImpl S Parameters → Parameters → S → Option ℕ
create_channel impl parameters device = impl.create_channel_impl parameters device

-- SecureDevice::CreateChannelImpl.
pub base_secure_device : {S Parameters : Type 0} → SecureDeviceImpl S Parameters
base_secure_device = record { create_channel_impl = λ parameters s. none }

-- NearObjectManager, with the address of the service; NearObjectCreateSessionResult has no members yet.
pub record NearObjectManager : Type 0 where
  pub m_service : Option ℕ

pub record NearObjectCreateSessionResult : Type 0 where

-- NearObjectManager::FindAllConnectionProfiles.
pub find_all_connection_profiles : NearObjectManager → List NearObjectProfile
find_all_connection_profiles m = []

-- NearObjectManager::CreateSession.
pub create_session : NearObjectProfile → NearObjectManager → NearObjectCreateSessionResult
create_session connection_profile m = record {}
