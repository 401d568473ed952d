-- ===== src/Helpers.antt =====
-- The small programs beside the server: src/bin/java_compile.c, java_run.c and wipe.c. Each is a
-- process of its own; of the state of `System.Server` it uses the world.
pub mod JavaCompile
pub mod Wipe
use bacs_legacy.Base.{List, ◌∷◌, Bytes, codes}

-- `main` of java_run.c: the directory that it enters, without a test, and the program that takes its
-- place, with the arguments.
pub java_run : List Bytes → Bytes × Bytes × List Bytes
java_run argv = (codes "Test", codes "java", argv)
