-- ===== src/Service.antt =====
-- lib/nearobject/service: NearObjectService.{hxx,cxx} and NearObjectServiceInjector.hxx. The managers and
-- the service stand behind std::shared_ptr: a pointer is an address.
use near_object_framework.Common.{ℕ}

-- NearObjectServiceInjector.
pub record NearObjectServiceInjector : Type 0 where
  pub profile_manager : ℕ
  pub device_manager : ℕ

-- NearObjectService, with its own address for shared_from_this.
pub record NearObjectService : Type 0 where
  pub address : ℕ
  pub profile_manager : ℕ
  pub device_manager : ℕ

-- NearObjectService::NearObjectService, at the address that the allocation gives.
pub make_service : ℕ → NearObjectServiceInjector → NearObjectService
make_service address injector = record {
  address = address;
  device_manager = injector.device_manager;
  profile_manager = injector.profile_manager;
}

-- NearObjectService::Create.
unfoldable pub create : ℕ → NearObjectServiceInjector → NearObjectService
unfolding make_service
create address injector = make_service address injector

-- NearObjectService::GetInstance.
unfoldable pub get_instance : NearObjectService → ℕ
get_instance service = service.address
