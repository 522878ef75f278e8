-- ===== src/Rpc/Services.antt =====
-- internal/server: the two services that the servers serve, NewCacheServiceHandler of rpc_cache.go and
-- NewProvisionServiceHandler of rpc_provision.go.
use zipstash.Base.{Text}
use zipstash.Backend.{Backend}
use zipstash.Rpc.{CacheServiceHandler, ProvisionServiceHandler}
use zipstash.CacheService.Handlers.{check_entry, create_entry, update_entry}
use zipstash.CacheService.Get.{get_entry}
use zipstash.Provision.{create_tenant, rpc_get_tenant}

module _ (b : Backend) where
  unfoldable pub cache_service : Text → CacheServiceHandler b.World
  cache_service cache_bucket = record {
    create_entry = create_entry b cache_bucket;
    update_entry = λ ctx. update_entry b cache_bucket;
    get_entry = get_entry b cache_bucket;
    check_entry = check_entry b cache_bucket;
  }

  unfoldable pub provision_service : ProvisionServiceHandler b.World
  provision_service = record {
    create_tenant = λ ctx. create_tenant b;
    get_tenant = λ ctx. rpc_get_tenant b;
  }
