-- ===== src/Lib.antt =====
-- TinyAgent: models of the Python programs that carry the project's own logic.
--
-- scripts/apk-delta.py writes an APK as a patch on an older one and applies such a patch; its
-- parts are Delta (the data and the scan of a ZIP file, `payloads`), Delta/Base64 (the base64
-- texts of a patch), Delta/Create (`create`) and Delta/Apply (`apply`, with the two files that it
-- writes as the record `Disk`). scripts/apk-delta-android.py turns the same patch into a shell
-- script of `dd` commands: Delta/Android (the loop over the spans and the script), and
-- Delta/Android/Script, which says what a device does with each line of a script.
--
-- scripts/tinyagent-packages.py and scripts/tinyagent-android.py are clients of the app's bridge:
-- Client (`request` and the shared data), Client/Packages (`execute`, `main`) and Client/Android
-- (`main`). The bridge is the parameter `call`, a function on the state of the rest of the world;
-- `print`, the calls and the waits are a list of events. The loops that poll the bridge take fuel,
-- one unit for each round; Client/Packages/Polls shows how much is enough.
--
-- scripts/upgrade-dnfast-empty.py replaces an installed package runtime on the app's root, and
-- scripts/upgrade-dnfast-checked.py runs it with other pinned values: Upgrade (the disk below the
-- root, and a program on it that may raise), Upgrade/Files (`directory` and `read`),
-- Upgrade/Publish (`publish`), Upgrade/Package (the manifest and the overlay), Upgrade/State (the
-- check of the package state), Upgrade/Checks (the other checks) and Upgrade/Run (`upgrade`).
-- Upgrade/Logs has rules for the list of the files that a run publishes, Upgrade/Writes what each
-- part of it publishes, Upgrade/Kept what becomes of the backups, Upgrade/Order the order they
-- stand in, Upgrade/Opened what the checks of the package and of the root say, Upgrade/Verified
-- what a run that returns has checked. The pinned values are the record `Config`. The archive's
-- members, the parsed manifest and the rows as JSON are parameters, and so are the owner of the
-- root and the user of the program; the items of the package state are given as they are listed.
-- Nobody else changes the root during a run, which the lock on it is for, so `publish` finds a
-- temporary file as it has just read it; `fsync`, the messages in exceptions and the symbolic
-- links that O_NOFOLLOW refuses, beyond being no file and no directory, are not modelled.
--
-- scripts/check-release.py is the gate of a release: Release (`checked_file` and the small tests),
-- Release/Rounds (the loop over the last three rounds) and Release/Check (the rest of `check`, and
-- the main program). Release/Evidence says what the checks of single files establish,
-- Release/Complete what those of a journey and a round do, Release/Series those of three rounds
-- and of the providers, Release/Gate what the whole verdict means. Json has JSON documents with
-- whole numbers and Python's operations on them. The candidate's directory is the record `Site`:
-- what a path resolves to, links included, and the regular files. A path's text is cut into parts
-- as pathlib does on Linux, for which a leading '/' is what makes it absolute; `--self-check`, a
-- test of the gate, is not modelled.
--
-- scripts/prepare-fedora.py stages the one layer of a pinned container image: Fedora
-- (`safe_members`) and Fedora/Image (`main`), with what they establish in Fedora/Safe and
-- Fedora/Staged. The archives, gzip and JSON are parameters; an archive member is its name and its
-- type. The two files that `main` writes, when all has passed, are its result.
--
-- scripts/collect_upstream.py collects pinned artifacts: Upstream (the directory of artifacts,
-- responses, and what is received of one) and Upstream/Download (`_download_once` and `download`);
-- Upstream/Transfer says what they leave in the directory, Upstream/Retries how often they try.
-- Upstream/Checks has `checksum_for`, `validate_signature` and the checks of a release,
-- Upstream/Collect `main`, and Upstream/Digests, Upstream/Assets and Upstream/Verified what a
-- collection that succeeds has established. Upstream/Reports has `gpg_command` and the texts that
-- `main` writes; the run of gpgv is a parameter over the directory. `urlopen` is a parameter, a
-- function on the state of the network; a body is what the reads of it give, an exception in the
-- middle included. A Content-Length below zero is not modelled, and neither is the printed
-- progress; the two times in the manifest are parameters.
--
-- The programs that stage inputs and check the package work on files and on the world outside;
-- Host has such a program as a function on both that gives a result or an exception, and
-- Host/Rules, Host/Chains and Host/Spares what follows of the steps of a program that returns, of
-- a loop, and of a program that only reads. A write replaces the file at a path; directories that
-- are made are of no consequence there.
--
-- scripts/export-private-source.py publishes a snapshot of the sources and
-- scripts/verify-source-snapshot.py reads it from an archive: Snapshot/Names (the lists of names),
-- Snapshot/Gather (what is gathered for an export, from git and the receipts), Snapshot/Order
-- (`sorted(names)`), Snapshot/Export (the loop over the names, and the snapshot), Snapshot/Verify
-- (the verification); Snapshot/Sets says what the order is, Snapshot/Publish, Snapshot/Rounds and
-- Snapshot/Allowed what an export changes. The published checkout is modelled without its `.git`,
-- to which `git hash-object -w` adds objects. git, and the reader and writer of JSON, are
-- parameters.
--
-- scripts/check-packaged-runtime.py checks a package that was built: Packaged (the entries of the
-- package, and the checks of single files), Packaged/Notices, Packaged/Native and Packaged/Web
-- (the parts of `main`) and Packaged/Check (`main`); Packaged/Covered and Packaged/Verified say
-- what it establishes. What a read of an entry or of a file below the root gives is a parameter.
-- scripts/stage-runtime-assets.py stages the two archives that the check pins: Packaged/Pins has
-- the pins, Staging/Run its `main`, and Staging/AssetsStaged what it leaves.
-- scripts/stage-dnfast-runtime.py stages the overlay of the package manager: Staging/Overlay has
-- its checks, Staging/Run the program, Staging/OverlayStaged what it establishes;
-- Staging/Published has rules for a file that is put in place.
--
-- scripts/prepare-android-sdk-fedora.py fetches and unpacks the build tools: Sdk/Unpack (`unpack`)
-- and Sdk/Prepare (`download` and `main`), with what they establish in Sdk/Verified, Sdk/Safe and
-- Sdk/Provenance. The lock, the network and the readers of archives are parameters.
--
-- scripts/collect-proot-sources.py collects the sources of the native programs: Sources (`fetch`),
-- Sources/Notices (the notices in an archive) and Sources/Collect (`main`); Sources/Verified and
-- Sources/Collected say what a collection has checked. scripts/stage-proot.py stages the programs
-- themselves: Proot/Archive (`ar_members`), Proot/Rename (the name of a library in a program) and
-- Proot/Stage (`fetch` and `main`), with what they establish in Proot/Layout, Proot/Described,
-- Proot/Inputs, Proot/Promoted and Proot/Verified. The recursion of `ar_members` takes fuel, the
-- length of the archive, and each round goes at least 60 bytes on. The names of its members are
-- decoded by a parameter, and numbers in it are read of ASCII digits. `upper` is that of ASCII.
--
-- scripts/collect-dnfast-rpm-notices.py collects the licences of the packages in the build image:
-- Attribution (a row of its report), Attribution/Collect (the program), Attribution/Archived (what
-- is in the archive) and Attribution/Complete (its report before the check of the package).
-- scripts/stage-dnfast-rpm-notices.py stages what was collected: Attribution/Stage (the checks of
-- the archive), Attribution/Write (the program) and Attribution/Staged (what it leaves). What rpm
-- prints and the files of the image are the record `Image`; the members of the archive are a list,
-- and what the writer makes of them is a parameter.
--
-- scripts/stage-dnfast-source-notices.py stages notices from pinned source packages: Rpms (the
-- packages that are known, and the checks), Rpms/Run (the program) and Rpms/Staged (what it has
-- checked). The run of tar is a parameter.
--
-- scripts/collect-dnfast-cargo-sources.py exports the crates of a lock file: Crates (the checks,
-- the outcome of a package, and the report), Crates/Run (the program) and Crates/Exported (what it
-- has checked). What is in the cache under a name, and the network, are parameters. The archive is
-- written when all its members are known, so what a run that raises leaves in its temporary file
-- is not modelled.
--
-- scripts/collect-dnfast-cargo-notices.py collects the notices of those crates: Crates/Notices (a
-- round for one crate), Crates/Noticed (what it establishes) and Crates/NoticesRun (the program).
-- `lower` is that of ASCII, which is enough for the four words it is compared with.
--
-- scripts/collect-dnfast-sources.py exports the pinned sources of the package manager: Checkout
-- (`main`, with what git gives as a record) and Checkout/Exported (what an export has checked and
-- stored).
--
-- scripts/build-proot-candidate.py and scripts/build-proot-fchmodat2.py build the native program:
-- Build (the machine, the commands, and what the two differ in), Build/Makefile (the names of the
-- objects), Build/Prepare and Build/Compile (the two halves of `main`), Build/Report (its report)
-- and Build/Run (`main`). A program that is run may change files and the world, and is a
-- parameter; Build/Confined has the rules for what stays as it was outside of a directory,
-- Build/Kept applies them to the first half, Build/Described says what the report is of,
-- Build/Built and Build/Inputs what a build that returns has checked. A path that begins with "/"
-- is one that is not below the repository's root.
--
-- scripts/collect-dnfast-library-sources.py fetches the source packages of the bundled libraries:
-- SourceRpms (names, addresses, what is known, a transfer, and the rows of the report),
-- SourceRpms/Run (a round, with the exception that it catches, and the program), SourceRpms/Names
-- (the names of packages and of parts of downloads), SourceRpms/Stored (what a round records),
-- SourceRpms/Spared (which files it leaves as they are), SourceRpms/Rounds (the loop) and
-- SourceRpms/Collected (what a collection that returns has done). A response is a list of pieces,
-- as in Upstream.
--
-- benchmarks/package-manager/checkout-workloads.py checks out the workloads that are built on the
-- phone: Workloads (the phone, an entry of the manifest, and a report), Workloads/Run (a round,
-- and the program), Workloads/Checked (what an entry and a checkout are checked for),
-- Workloads/Reported (what the reports say) and Workloads/Returned (the end of the program). `git`
-- may change files and the world, and is a parameter, as are the clock and the disk.
--
-- scripts/verify-campaign-apks.py copies the APKs of builds from the phone and checks them:
-- Campaign (the report of a build, and the checks of an APK), Campaign/Run (the program, with
-- `adb` and the readers of files as a record), Campaign/Verified (what a round establishes) and
-- Campaign/Inputs (what a verification leaves as it is, and what it establishes). It runs on
-- Windows, where both slashes separate the parts of a path. An APK that has the file name of
-- another one of its run replaces the copy of it.
--
-- Of these programs, the command line and the lines that are printed are not modelled, but for
-- what a property names.
--
-- Base has the names and lemmas that the modules share: Base/Results has Python's exceptions as
-- values, Base/Lists slices and lists of bytes, Base/Paths paths, Base/Dicts dictionaries,
-- Base/Texts the regular expressions that are used. SHA-256 is the parameter `digest`, a function
-- from bytes to its hexadecimal text; no theorem assumes that it has no collisions. In Delta,
-- Client and Upgrade a JSON document is a record of the keys that the programs read; the others
-- use Json. The central directory of a ZIP file, as `zipfile` reports it, is the list of its
-- entries. A full disk is modelled only where the results of the checkouts are written, which is
-- outside of the `try`; other failures of a write are not modelled.
--
-- Not modelled: the Java application and the native code, which are in other languages; the
-- acceptance checks and device probes, which drive a device or a browser and keep no state; the
-- other benchmarks, which measure subprocesses; and, so far, the remaining collectors and stagers
-- (scripts/stage-web-ui.py and those like it).
pub mod Base
pub mod Host
pub mod Sdk
pub mod Sources
pub mod Proot
pub mod Attribution
pub mod Staging
pub mod Rpms
pub mod Crates
pub mod Checkout
pub mod Build
pub mod SourceRpms
pub mod Workloads
pub mod Campaign
pub mod Snapshot
pub mod Packaged
pub mod Delta
pub mod Client
pub mod Upgrade
pub mod Json
pub mod Release
pub mod Fedora
pub mod Upstream
mod Tests
