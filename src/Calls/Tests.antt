-- ===== src/Calls/Tests.antt =====
-- A run of calls from a concrete registry.
use pkcs11hsmsim.Base.{true, items}
use pkcs11hsmsim.Base.Text.{codes}
use pkcs11hsmsim.Ck.{cku_user}
use pkcs11hsmsim.Core.State.{Runtime}
use pkcs11hsmsim.Core.Invariant.{IsValid}
use pkcs11hsmsim.Core.Examples.{office, office-IsValid, mute}
use pkcs11hsmsim.Sessions.{login}
use pkcs11hsmsim.Objects.{destroy_object}
use pkcs11hsmsim.Calls.{invoke, logs_in, destroys, Reaches, here, after}
use pkcs11hsmsim.Calls.Keeping.{Reaches-IsValid}

-- Login to slot 2, then the key of slot 1 is destroyed.
abbrev logged_in_again : Runtime
logged_in_again = (invoke true (login 2 cku_user (items (codes "1234"))) office).1

abbrev destroyed : Runtime
destroyed = (invoke true (destroy_object 1 1) logged_in_again).1

run : Reaches mute office destroyed
run =
    after office logged_in_again destroyed
      (after office office logged_in_again (here office)
        (logs_in 2 cku_user (items (codes "1234")) office))
      (destroys 1 1 logged_in_again)

Reaches-IsValid_example : IsValid destroyed
Reaches-IsValid_example = Reaches-IsValid mute run office-IsValid
