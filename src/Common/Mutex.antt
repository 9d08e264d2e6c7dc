-- ===== src/Common/Mutex.antt =====
-- The macros of src/lock.h around a mutex, which is free or held. To lock it twice, or to unlock it when
-- it is free, is undefined. With `fra_p_pthreads` 0 the macros do nothing.
use mathlib.Core.Bool.{Bool, true, false}
use fast_cgi_rest_api.Common.Tests.{if◌then◌else◌}
use fast_cgi_rest_api.Common.Rcs.{Rc, ok, failed, Run, done, fault}

-- `pthread_mutex_lock` and `pthread_mutex_unlock`, by what they return.
unfoldable pub mutex_lock : Rc → Bool → Run (Rc × Bool)
mutex_lock rc true = fault
mutex_lock ok false = done (ok, true)
mutex_lock failed false = done (failed, false)

unfoldable pub mutex_unlock : Rc → Bool → Run (Rc × Bool)
mutex_unlock rc false = fault
mutex_unlock ok true = done (ok, false)
mutex_unlock failed true = done (failed, true)

-- `fra_p_lock` and `fra_p_unlock`
unfoldable pub lock : (pthreads : Bool) → Rc → Bool → Run (Rc × Bool)
unfolding mutex_lock
lock pthreads rc held = if pthreads then mutex_lock rc held else done (ok, held)

unfoldable pub unlock : (pthreads : Bool) → Rc → Bool → Run (Rc × Bool)
unfolding mutex_unlock
unlock pthreads rc held = if pthreads then mutex_unlock rc held else done (ok, held)
